-- ===== src/Http/Tests.antt =====
-- Runs of the loop of socket/http_client.c.
use apue_pratice.Prelude.{ℕ, ◌≡◌, refl, true, some, List, [], ◌∷◌, arith}
use apue_pratice.Http.{Network, download}
use apue_pratice.Http.Body.{clean_lines, response_of, no_cr, clean, download_saves}

-- "OK" and "A: 1".
abbrev header : List (List ℕ)
header = (79 ∷ 75 ∷ []) ∷ (65 ∷ 58 ∷ 32 ∷ 49 ∷ []) ∷ []

abbrev answering : List ℕ → Network
answering response = record {
  socket_ok = true;
  host_ok = true;
  connect_ok = true;
  stream_ok = true;
  response = response;
  file_ok = true;
}

abbrev text : List ℕ
text = 72 ∷ 105 ∷ 10 ∷ 10 ∷ 33 ∷ []

download_saves_example :
    download (answering (response_of header text)) ≡ record { status = 0; file = some text }
unfolding clean_lines no_cr clean
download_saves_example =
    download_saves (answering (response_of header text)) (79 ∷ 75 ∷ [])
      ((65 ∷ 58 ∷ 32 ∷ 49 ∷ []) ∷ []) 72 (105 ∷ 10 ∷ 10 ∷ 33 ∷ []) refl refl (ground arith)
      (ground arith) (ground arith)
