-- ===== src/Http.antt =====
-- socket/http_client.c: the options, and the loop that takes the body out of a response. A response
-- is the list of its bytes; opening the socket and sending the request are answers of the system.
pub mod Body
mod Tests
use mathlib.Core.Bool.{not}
use mathlib.Core.List.{append-nil, append_assoc}
use native.Mathlib.Decide.{ℕ_discrete}
use apue_pratice.Prelude.{
  ℕ, zero, suc, ◌+◌, ◌-◌, ◌*◌, ◌/◌, ◌%◌, ◌^◌, ◌≤◌, ◌<◌, ◌≡◌, refl, sym, ap, ◌∙◌, ◌≢◌, ◌↔◌, ◌⊎◌, inl,
  inr, Bool, true, false, ◌&&◌, ◌||◌, Option, none, some, List, [], ◌∷◌, ◌++◌, map, arith, ltb, leb,
  ◌==◌, if◌then◌else◌, Bool-cases, Option-cases, length, get_elem?, set, length-set,
  get_elem?-set_self, get_elem?-set_ne, length-append, take, drop, replicate, length-replicate,
  length-map, take-append-drop, length-take, length-drop,
}
use apue_pratice.Prelude.Int.{
  ℤ, pos, negsuc, pos_part, neg_part, ◌+ℤ◌, ◌-ℤ◌, ◌≤ℤ◌, leb_ℤ, ltb_ℤ, eqb_ℤ, int_laws, eq_of_parts,
}
use apue_pratice.Prelude.Outcome.{Outcome, done, fault, blocked, ◌>>=◌, >>=-eq-done}
use apue_pratice.Prelude.CInt.{
  fits, checked, add_int, sub_int, min_int, int_min, int_max, add_int-done, sub_int-done,
  fits_of_le, add_int-eq, sub_int-eq,
}

abbrev pub cr : ℕ
cr = 13

abbrev pub lf : ℕ
lf = 10

-- The locals `status` and `body`, and what `out` has received.
pub record Reader : Type 0 where
  pub status : ℕ
  pub body : Bool
  pub out : List ℕ

-- The first three tests of a round, in their order.
abbrev pub seen_cr : ℕ → ℕ → ℕ
seen_cr c status = if (c == cr) && (status == 0) then 1 else status

abbrev pub seen_crlf : ℕ → ℕ → ℕ
seen_crlf c status = if (c == lf) && (status == 1) then 2 else status

abbrev pub seen_crlfcr : ℕ → ℕ → ℕ
seen_crlfcr c status = if (c == cr) && (status == 2) then 3 else status

abbrev pub tracked : ℕ → ℕ → ℕ
tracked c status = seen_crlfcr c (seen_crlf c (seen_cr c status))

-- `if (c != '\r' && c != '\n') status = 0;`
abbrev pub reset : ℕ → ℕ → ℕ
reset c status = if not (c == cr) && not (c == lf) then 0 else status

-- One round of the loop, with `continue` after the fourth test.
abbrev pub read_char : ℕ → Reader → Reader
read_char c r =
    let status = tracked c r.status in
    if (c == lf) && (status == 3)
    then record { status = status; body = true; out = r.out }
    else record {
      status = reset c status;
      body = r.body;
      out = if r.body then r.out ++ c ∷ [] else r.out;
    }

unfoldable pub read_response : List ℕ → Reader → Reader
read_response [] r = r
read_response (c ∷ cs) r = read_response cs (read_char c r)

abbrev pub no_reader : Reader
no_reader = record { status = 0; body = false; out = [] }

-- What the system answers to `download`: whether there is a socket, whether the host is an address,
-- whether the connection and the stream open, the response, and whether the file opens.
pub record Network : Type 0 where
  pub socket_ok : Bool
  pub host_ok : Bool
  pub connect_ok : Bool
  pub stream_ok : Bool
  pub response : List ℕ
  pub file_ok : Bool

-- How the program ends: its status, and the file if it was opened.
pub record Saved : Type 0 where
  pub status : ℕ
  pub file : Option (List ℕ)

abbrev pub stops : ℕ → Saved
stops status = record { status = status; file = none }

unfoldable pub download : Network → Saved
download n =
    if not n.socket_ok
    then stops 1
    else if not n.host_ok
    then stops 1
    else if not n.connect_ok
    then stops 1
    else if not n.stream_ok
    then stops 1
    else if not n.file_ok
    then stops 1
    else record { status = 0; file = some (read_response n.response no_reader).out }

-- What `getopt` gives, one option at a time.
pub data Opt : Type 0 where
  opt_h : List ℕ → Opt
  opt_p : List ℕ → Opt
  opt_u : List ℕ → Opt
  opt_o : List ℕ → Opt
  other : Opt

pub record Options : Type 0 where
  pub host : Option (List ℕ)
  pub port : Option (List ℕ)
  pub uri : Option (List ℕ)
  pub file : Option (List ℕ)

-- One round of the loop over `getopt`.
abbrev pub load : Opt → Options → Options
load (opt_h v) o = record o { host = some v }
load (opt_p v) o = record o { port = some v }
load (opt_u v) o = record o { uri = some v }
load (opt_o v) o = record o { file = some v }
load other o = o

unfoldable pub load_all : List Opt → Options → Options
load_all [] o = o
load_all (x ∷ xs) o = load_all xs (load x o)

abbrev pub no_options : Options
no_options = record { host = none; port = none; uri = none; file = none }

abbrev pub present : {A : Type 0} → Option A → Bool
present none = false
present (some _) = true

abbrev pub complete : Options → Bool
complete o = present o.host && present o.port && present o.uri && present o.file

-- `main`: the number of arguments and what `getopt` makes of them.
unfoldable pub client_main : ℕ → List Opt → Network → Saved
client_main argc opts n =
    if argc == 1
    then stops 0
    else if complete (load_all opts no_options)
    then download n
    else stops 1
