-- ===== src/Http/Body.antt =====
-- The body that socket/http_client.c saves, for a response of a regular form.
use mathlib.Core.Bool.{not}
use mathlib.Core.List.{append-nil, append_assoc}
use apue_pratice.Prelude.{
  ℕ, ◌≡◌, refl, sym, ap, ◌≢◌, Bool, true, false, ◌&&◌, some, List, [], ◌∷◌, ◌++◌, arith, ◌==◌,
  length,
}
use apue_pratice.Http.{cr, lf, Reader, read_response, no_reader, Network, download}

-- A header line is neither empty nor has a CR or an LF.
unfoldable pub clean : List ℕ → Bool
clean [] = true
clean (c ∷ cs) = not (c == cr) && not (c == lf) && clean cs

unfoldable pub clean_lines : List (List ℕ) → Bool
clean_lines [] = true
clean_lines (l ∷ ls) = clean l && not (length l == 0) && clean_lines ls

-- The bytes of a response: its lines, each ended by CR LF, an empty line, and the body.
unfoldable pub response_of : List (List ℕ) → List ℕ → List ℕ
response_of [] body = cr ∷ lf ∷ body
response_of (l ∷ ls) body = l ++ cr ∷ lf ∷ response_of ls body

abbrev in_body : List ℕ → Reader
in_body out = record { status = 3; body = true; out = out }

abbrev at_line : Reader
at_line = record { status = 2; body = false; out = [] }

read_response-clean :
    (c status : ℕ) (l rest : List ℕ)
    → clean (c ∷ l) ≡ true
    → read_response (c ∷ l ++ rest) (record { status = status; body = false; out = [] })
      ≡ read_response rest no_reader
unfolding read_response clean
read_response-clean c status [] rest h = ground arith
read_response-clean c status (d ∷ l) rest h =
    let first : read_response (c ∷ d ∷ l ++ rest)
          (record { status = status; body = false; out = [] })
        ≡ read_response (d ∷ l ++ rest) no_reader =
      ap (read_response (d ∷ l ++ rest)) {y = no_reader} (ground arith) in
    rw (first, read_response-clean d 0 l rest (ground arith))

-- The header is skipped, and the reader is then in the body.
read_response-header :
    (ls : List (List ℕ)) (body : List ℕ)
    → clean_lines ls ≡ true
    → read_response (response_of ls body) at_line ≡ read_response body (in_body [])
unfolding read_response response_of clean_lines
read_response-header [] body h = refl
read_response-header ([] ∷ ls) body h = ground arith
read_response-header ((c ∷ l) ∷ ls) body h =
    let line : read_response (c ∷ l ++ cr ∷ lf ∷ response_of ls body) at_line
        ≡ read_response (cr ∷ lf ∷ response_of ls body) no_reader =
      read_response-clean c 2 l (cr ∷ lf ∷ response_of ls body) (ground arith) in
    rw (line, read_response-header ls body (ground arith))

-- A body whose first byte is neither CR nor LF, and that has no CR, is written as it is.
unfoldable pub no_cr : List ℕ → Bool
no_cr [] = true
no_cr (c ∷ cs) = not (c == cr) && no_cr cs

read_response-body :
    (cs out : List ℕ) (status : ℕ)
    → no_cr cs ≡ true
    → status ≡ 0
    → (read_response cs (record { status = status; body = true; out = out })).out ≡ out ++ cs
unfolding read_response no_cr
read_response-body [] out status h z = sym (append-nil out)
read_response-body (c ∷ cs) out status h z =
    let first : read_response (c ∷ cs) (record { status = status; body = true; out = out })
        ≡ read_response cs (record { status = 0; body = true; out = out ++ c ∷ [] }) =
      ap (read_response cs) {y = record { status = 0; body = true; out = out ++ c ∷ [] }}
        (ground arith) in
    rw (
      first,
      read_response-body cs (out ++ c ∷ []) 0 (ground arith) refl,
      append_assoc out (c ∷ []) cs,
    )

-- The whole header, from the first byte of the response on.
read_response-start :
    (l : List ℕ) (ls : List (List ℕ)) (body : List ℕ)
    → clean_lines (l ∷ ls) ≡ true
    → read_response (response_of (l ∷ ls) body) no_reader ≡ read_response body (in_body [])
unfolding read_response response_of clean_lines
read_response-start [] ls body h = ground arith
read_response-start (c ∷ l) ls body h =
    let line : read_response (c ∷ l ++ cr ∷ lf ∷ response_of ls body) no_reader
        ≡ read_response (cr ∷ lf ∷ response_of ls body) no_reader =
      read_response-clean c 0 l (cr ∷ lf ∷ response_of ls body) (ground arith) in
    rw (line, read_response-header ls body (ground arith))

-- Every call of the system before the loop succeeds.
abbrev pub all_ok : Network → Bool
all_ok n = n.socket_ok && n.host_ok && n.connect_ok && n.stream_ok && n.file_ok

download-done :
    (n : Network)
    → all_ok n ≡ true
    → download n ≡ record { status = 0; file = some (read_response n.response no_reader).out }
unfolding download
download-done n h = ground arith

-- When no call fails, the response has at least one header line, all of them without CR and LF and
-- none empty, and the body starts with a byte that is neither CR nor LF and has no CR, `download`
-- saves the body and exits with 0.
pub download_saves :
    (n : Network) (l : List ℕ) (ls : List (List ℕ)) (c : ℕ) (cs : List ℕ)
    → all_ok n ≡ true
    → n.response ≡ response_of (l ∷ ls) (c ∷ cs)
    → clean_lines (l ∷ ls) ≡ true
    → c ≢ lf
    → no_cr (c ∷ cs) ≡ true
    → download n ≡ record { status = 0; file = some (c ∷ cs) }
unfolding read_response no_cr
download_saves n l ls c cs ok e h first plain =
    let written : read_response (c ∷ cs) (in_body [])
        ≡ read_response cs (record { status = 0; body = true; out = c ∷ [] }) =
      ap (read_response cs) {y = record { status = 0; body = true; out = c ∷ [] }} (ground arith) in
    rw (
      download-done n ok,
      e,
      read_response-start l ls (c ∷ cs) h,
      written,
      read_response-body cs (c ∷ []) 0 (ground arith) refl,
    )

-- When no call fails and the response has at least one header line, all of them without CR and LF
-- and none empty, an LF at the start of the body is lost: `download` does the same for the
-- response without it.
download_drops_newline :
    (n : Network) (l : List ℕ) (ls : List (List ℕ)) (body : List ℕ)
    → all_ok n ≡ true
    → clean_lines (l ∷ ls) ≡ true
    → download (record n { response = response_of (l ∷ ls) (lf ∷ body) })
      ≡ download (record n { response = response_of (l ∷ ls) body })
unfolding read_response
download_drops_newline n l ls body ok h = rw (
  download-done (record n { response = response_of (l ∷ ls) (lf ∷ body) }) ok,
  download-done (record n { response = response_of (l ∷ ls) body }) ok,
  read_response-start l ls (lf ∷ body) h,
  read_response-start l ls body h,
)
