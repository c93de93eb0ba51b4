-- ===== src/Socket/Layout.antt =====
-- `struct msg_st` of `Socket/Message.antt` on its way: what one program fills in, another prints.
use mathlib.Core.List.{append-nil, append_assoc}
use mathlib.Core.Path.{ap₂}
use apue_pratice.Prelude.{take-all, drop-all}
use apue_pratice.Prelude.{
  ℕ, zero, suc, ◌+◌, ◌/◌, ◌%◌, ◌<◌, ◌≡◌, refl, sym, ap, ◌∙◌, true, List, [], ◌∷◌, ◌++◌, arith,
  length, get_or, length-append, take, drop, length-take, length-drop,
}
use apue_pratice.Prelude.Outcome.{done, ◌>>=◌}
use apue_pratice.Socket.Message.{
  le_bytes, of_le, htonl, be_bytes, name_size, msg_size, MsgSt, strcpy, msg_bytes, filled, word_at,
  c_string, as_int, Line, print_msg, received, no_nul,
}

htonl-htonl : (v : ℕ) → v < 4294967296 → htonl (htonl v) ≡ v
unfolding htonl
htonl-htonl v h = omega (arith, h)

htonl_bound : (v : ℕ) → htonl v < 4294967296
unfolding htonl
htonl_bound v = omega arith

byte_of_le :
    (a b c d : ℕ)
    → a < 256
    → b < 256
    → c < 256
    → d < 256
    → le_bytes (of_le a b c d) ≡ a ∷ b ∷ c ∷ d ∷ []
byte_of_le a b c d ha hb hc hd =
    let first : of_le a b c d % 256 ≡ a = omega (arith, ha, hb, hc, hd) in
    let second : of_le a b c d / 256 % 256 ≡ b = omega (arith, ha, hb, hc, hd) in
    let third : of_le a b c d / 65536 % 256 ≡ c = omega (arith, ha, hb, hc, hd) in
    let fourth : of_le a b c d / 16777216 % 256 ≡ d = omega (arith, ha, hb, hc, hd) in cc

-- A number that is stored after `htonl` is on the net with its high byte first.
pub htonl-le_bytes : (v : ℕ) → le_bytes (htonl v) ≡ be_bytes v
unfolding htonl
htonl-le_bytes v =
    byte_of_le (v / 16777216 % 256) (v / 65536 % 256) (v / 256 % 256) (v % 256) (omega arith)
      (omega arith) (omega arith) (omega arith)

get_or-append :
    (xs ys : List ℕ) (i j : ℕ) → j ≡ length xs + i → get_or (xs ++ ys) j 0 ≡ get_or ys i 0
get_or-append [] ys i j e = ap (λ k. get_or ys k 0) (let q : j ≡ i = omega (arith, e) in q)
get_or-append (x ∷ xs) ys i zero e = absurd (omega (arith, e))
get_or-append (x ∷ xs) ys i (suc j) e = get_or-append xs ys i j (omega (arith, e))

word_at-append :
    (k v : ℕ) (xs ys : List ℕ)
    → length xs ≡ k
    → v < 4294967296
    → word_at k (xs ++ (le_bytes v ++ ys)) ≡ v
word_at-append k v xs ys e h =
    let first : get_or (xs ++ (le_bytes v ++ ys)) k 0 ≡ v % 256 =
      get_or-append xs (le_bytes v ++ ys) 0 k (omega (arith, e)) in
    let second : get_or (xs ++ (le_bytes v ++ ys)) (k + 1) 0 ≡ v / 256 % 256 =
      get_or-append xs (le_bytes v ++ ys) 1 (k + 1) (omega (arith, e)) in
    let third : get_or (xs ++ (le_bytes v ++ ys)) (k + 2) 0 ≡ v / 65536 % 256 =
      get_or-append xs (le_bytes v ++ ys) 2 (k + 2) (omega (arith, e)) in
    let fourth : get_or (xs ++ (le_bytes v ++ ys)) (k + 3) 0 ≡ v / 16777216 % 256 =
      get_or-append xs (le_bytes v ++ ys) 3 (k + 3) (omega (arith, e)) in
    omega (arith, h, first, second, third, fourth)

c_string-strcpy :
    (text rest : List ℕ) → no_nul text ≡ true → c_string (text ++ 0 ∷ rest) ≡ done text
unfolding c_string
c_string-strcpy [] rest n = refl
c_string-strcpy (b ∷ text) rest n = ground (arith, c_string-strcpy text rest)

length-strcpy :
    (text old : List ℕ) → length text < length old → length (strcpy text old) ≡ length old
length-strcpy text old h = omega (
  arith,
  h,
  length-append text (0 ∷ drop (suc (length text)) old),
  length-drop (suc (length text)) old,
)

-- Received whole, the bytes replace all that stood in the struct.
received-whole :
    (bytes old : List ℕ)
    → length bytes ≡ msg_size
    → length old ≡ msg_size
    → received bytes old ≡ bytes
received-whole bytes old h g =
    let whole : take msg_size bytes ≡ bytes = take-all msg_size bytes (omega (arith, h)) in
    let gone : drop (length bytes) old ≡ [] = drop-all (length bytes) old (omega (arith, h, g)) in
    ap (λ got. got ++ drop (length got) old) whole
    ∙ ap (λ rest. bytes ++ rest) gone
    ∙ append-nil bytes

pub length-received :
    (bytes old : List ℕ) → length old ≡ msg_size → length (received bytes old) ≡ msg_size
length-received bytes old h = omega (
  arith,
  h,
  length-append (take msg_size bytes) (drop (length (take msg_size bytes)) old),
  length-drop (length (take msg_size bytes)) old,
  length-take msg_size bytes,
)

length-msg_bytes : (msg : MsgSt) → length msg.name ≡ name_size → length (msg_bytes msg) ≡ msg_size
length-msg_bytes msg h =
    length-append msg.name (le_bytes msg.math ++ le_bytes msg.chinese) ∙ ap (λ k. k + 8) h

-- What is printed of a struct whose name ends inside it.
print_msg-bytes :
    (name text : List ℕ) (math chinese : ℕ)
    → length name ≡ name_size
    → math < 4294967296
    → chinese < 4294967296
    → ((rest : List ℕ) → c_string (name ++ rest) ≡ done text)
    → print_msg (name ++ (le_bytes math ++ le_bytes chinese))
      ≡ done (record {
        shown = text;
        math_shown = as_int (htonl math);
        chinese_shown = as_int (htonl chinese);
      })
unfolding print_msg
print_msg-bytes name text math chinese e hm hc ends =
    let all : List ℕ = name ++ (le_bytes math ++ le_bytes chinese) in
    let m : word_at 16 all ≡ math = word_at-append 16 math name (le_bytes chinese) e hm in
    let sides : (name ++ le_bytes math) ++ (le_bytes chinese ++ []) ≡ all =
      append_assoc name (le_bytes math) (le_bytes chinese ++ []) in
    let twenty : length (name ++ le_bytes math) ≡ 20 =
      length-append name (le_bytes math) ∙ ap (λ k. k + 4) e in
    let c : word_at 20 all ≡ chinese =
      ap (word_at 20) (sym sides)
      ∙ word_at-append 20 chinese (name ++ le_bytes math) [] twenty hc in
    ap
      (λ t. t >>= λ text'. done (
        let l : Line = record {
          shown = text';
          math_shown = as_int (htonl (word_at 16 all));
          chinese_shown = as_int (htonl (word_at 20 all));
        } in
        l))
      (ends (le_bytes math ++ le_bytes chinese))
    ∙ ap₂
        (λ x y. done (
          let l : Line = record {
            shown = text;
            math_shown = as_int (htonl x);
            chinese_shown = as_int (htonl y);
          } in
          l))
        m c

pub length-filled :
    (text junk : List ℕ) (math chinese : ℕ)
    → length text < name_size
    → length junk ≡ name_size
    → length (msg_bytes (filled text math chinese junk)) ≡ msg_size
length-filled text junk math chinese t j =
    let sixteen : length (strcpy text junk) ≡ name_size =
      omega (arith, length-strcpy text junk (omega (arith, t, j)), j) in
    length-msg_bytes (filled text math chinese junk) sixteen

-- What `client` fills in is what a server prints, whatever stood in either struct before.
pub print_msg-filled :
    (text junk old : List ℕ) (math chinese : ℕ)
    → no_nul text ≡ true
    → length text < name_size
    → length junk ≡ name_size
    → length old ≡ msg_size
    → math < 4294967296
    → chinese < 4294967296
    → print_msg (received (msg_bytes (filled text math chinese junk)) old)
      ≡ done (record { shown = text; math_shown = as_int math; chinese_shown = as_int chinese })
print_msg-filled text junk old math chinese n t j o hm hc =
    let sixteen : length (strcpy text junk) ≡ name_size =
      omega (arith, length-strcpy text junk (omega (arith, t, j)), j) in
    let whole : received (msg_bytes (filled text math chinese junk)) old
        ≡ msg_bytes (filled text math chinese junk) =
      received-whole (msg_bytes (filled text math chinese junk)) old
        (length-filled text junk math chinese t j) o in
    ap print_msg whole
    ∙ print_msg-bytes (strcpy text junk) text (htonl math) (htonl chinese) sixteen
        (htonl_bound math) (htonl_bound chinese)
        (λ rest.
          ap c_string (append_assoc text (0 ∷ drop (suc (length text)) junk) rest)
          ∙ c_string-strcpy text (drop (suc (length text)) junk ++ rest) n)
    ∙ ap₂
        (λ m c. done (
          let l : Line = record { shown = text; math_shown = as_int m; chinese_shown = as_int c } in
          l))
        (htonl-htonl math hm) (htonl-htonl chinese hc)
