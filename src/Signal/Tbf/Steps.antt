-- ===== src/Signal/Tbf/Steps.antt =====
-- Every call of signal/mytbf.c, and every alarm, keeps the table well formed.
use mathlib.Core.Path.{subst}
use apue_pratice.Prelude.{
  ℕ, zero, suc, ◌+◌, ◌<◌, ◌≡◌, refl, ◌∙◌, inl, inr, Bool, true, false, some, arith, Bool-cases,
  get_elem?, length-set,
}
use apue_pratice.Prelude.Int.{ℤ, pos, negsuc, eqb_ℤ}
use apue_pratice.Prelude.Outcome.{done, >>=-eq-done}
use apue_pratice.Prelude.CInt.{add_int, sub_int, min_int}
use apue_pratice.Slots.{null, live, deref, put, count_live}
use apue_pratice.Signal.Tbf.{
  Tbf, Library, accrue, handle, mytbf_load, get_pos, init_at, mytbf_init, mytbf_returntoken, await,
  take_tokens, mytbf_fetchtoken,
}
use apue_pratice.Slots.First.{
  IsFirst, first_null-IsFirst, count_live-set_live, count_live-set_over, deref-eq-done,
}
use apue_pratice.Signal.Tbf.Table.{IsValid, accrue_shape, place}
use apue_pratice.Slots.Placed.{IsPlaced-get, IsPlaced-set_live}

load-IsValid : (s : Library) → IsValid s → IsValid (mytbf_load s)
unfolding mytbf_load
load-IsValid s v = ground arith

-- `malloc` hands out one more block.
allocated-IsValid : (s : Library) → IsValid s → IsValid (record s { blocks = s.blocks + 1 })
allocated-IsValid s v = ground arith

init_at-IsValid :
    (r cps burst : ℤ) (s : Library)
    → IsFirst 0 s.jobs r
    → count_live s.jobs < s.blocks
    → IsValid s
    → IsValid (init_at r cps burst s).1
unfolding init_at
init_at-IsValid (negsuc n) cps burst s f room v = v
init_at-IsValid (pos i) cps burst s (n, e, free, before) room v = record {
  size = length-set s.jobs i _ ∙ v.size;
  placed = IsPlaced-set_live place 0 i s.jobs _ (ground arith) v.placed;
  owned = omega (
    arith,
    count_live-set_live s.jobs i _ (subst (λ k. get_elem? s.jobs k ≡ some null) (omega arith) free),
  );
  armed = v.armed;
}

pub init-IsValid :
    (memory : Bool) (cps burst : ℤ) (s : Library)
    → IsValid s
    → IsValid (mytbf_init memory cps burst s).1
unfolding mytbf_init get_pos
init-IsValid false cps burst s v = load-IsValid s v
init-IsValid true cps burst s v =
    init_at-IsValid _ cps burst _ (first_null-IsFirst 0 (mytbf_load s).jobs)
      (omega (arith, (load-IsValid s v).owned)) (allocated-IsValid _ (load-IsValid s v))

pub handle-IsValid : (s : Library) {t : Library} → handle s ≡ done t → IsValid s → IsValid t
unfolding handle
handle-IsValid s q v =
    let (ys, e, d) = >>=-eq-done (accrue s.jobs) _ q in
    ground (arith, accrue_shape 0 s.jobs e v.placed)

-- A job changes in its slot: its position stays.
update-IsValid :
    (s : Library) (id : ℤ) (p p' : Tbf)
    → deref s.jobs id ≡ done p
    → p'.pos_field ≡ p.pos_field
    → IsValid s
    → IsValid (record s { jobs = put s.jobs id (live p') })
update-IsValid s (negsuc n) p p' q e v = cc
update-IsValid s (pos i) p p' q e v = record {
  size = length-set s.jobs i _ ∙ v.size;
  placed =
      IsPlaced-set_live place 0 i s.jobs p' (e ∙ IsPlaced-get place 0 i s.jobs v.placed held)
        v.placed;
  owned = omega (arith, count_live-set_over s.jobs i p' held);
  armed = v.armed;
}
  where
    held : get_elem? s.jobs i ≡ some (live p)
    held = deref-eq-done s.jobs i q

pub returntoken-IsValid :
    (id token r : ℤ) (s : Library) {t : Library}
    → mytbf_returntoken id token s ≡ done (r, t)
    → IsValid s
    → IsValid t
unfolding mytbf_returntoken
returntoken-IsValid id token r s q v =
    let (p, e, d) = >>=-eq-done (deref s.jobs id) _ q in
    let (sum, e', d') = >>=-eq-done (add_int p.token token) _ d in
    ground (arith, update-IsValid s id p (record p { token = min_int sum p.burst }) e refl v)

pub await-IsValid :
    (alarms : ℕ) (id : ℤ) (s : Library) {t : Library}
    → await alarms id s ≡ done t
    → IsValid s
    → IsValid t
unfolding await
await-IsValid zero id s q v = let (p, e, d) = >>=-eq-done (deref s.jobs id) _ q in ground arith
await-IsValid (suc n) id s q v =
    let (p, e, d) = >>=-eq-done (deref s.jobs id) _ q in
    elim (Bool-cases (eqb_ℤ p.token (pos 0))) [
      | inl empty ↦
          let (u, e', d') = >>=-eq-done (handle s) (await n id) (rw empty at d) in
          await-IsValid n id u d' (handle-IsValid s e' v)
      | inr full ↦ ground arith
    ]

take_tokens-IsValid :
    (id token r : ℤ) (s : Library) {t : Library}
    → take_tokens id token s ≡ done (r, t)
    → IsValid s
    → IsValid t
unfolding take_tokens
take_tokens-IsValid id token r s q v =
    let (p, e, d) = >>=-eq-done (deref s.jobs id) _ q in
    let (left, e', d') = >>=-eq-done (sub_int p.token (min_int p.token token)) _ d in
    ground (arith, update-IsValid s id p (record p { token = left }) e refl v)

pub fetchtoken-IsValid :
    (alarms : ℕ) (id token r : ℤ) (s : Library) {t : Library}
    → mytbf_fetchtoken alarms id token s ≡ done (r, t)
    → IsValid s
    → IsValid t
unfolding mytbf_fetchtoken
fetchtoken-IsValid alarms id token r s q v =
    let (u, e, d) = >>=-eq-done (await alarms id s) _ q in
    take_tokens-IsValid id token r u d (await-IsValid alarms id s e v)
