-- ===== src/Handler/Body.antt =====
-- services/ingest/internal/handler/batch.go: readBody
pub mod Caps
use event_tracking.Prelude.{
  ℕ, zero, suc, ◌+◌, ◌≤◌, ◌<◌, String, ◌≡◌, refl, Bool, true, false, List, [], ◌∷◌, Option, none,
  some, ◌==◌, Result, ok, err, ltb, leb, length, arith, if◌then◌else◌,
}
use event_tracking.Limits.{max_batch_bytes}

-- How reading a source ends: at its end, by an error of the transport or of the compression, or by
-- the error of http.MaxBytesReader.
pub data End : Type 0 where
  eof broken max_bytes : End

pub record Stream : Type 0 where
  pub content : List ℕ
  pub ending : End

pub data BodyError : Type 0 where
  too_large unreadable : BodyError

abbrev pub take : ℕ → List ℕ → List ℕ
take zero xs = []
take (suc n) [] = []
take (suc n) (x ∷ xs) = x ∷ take n xs

-- http.MaxBytesReader(nil, body, limit)
unfoldable pub max_bytes_reader : ℕ → Stream → Stream
max_bytes_reader limit s =
    if ltb limit (length s.content)
    then record { content = take limit s.content; ending = max_bytes }
    else s

-- io.LimitReader(source, limit)
unfoldable pub limit_reader : ℕ → Stream → Stream
limit_reader limit s =
    if leb limit (length s.content)
    then record { content = take limit s.content; ending = eof }
    else s

-- io.ReadAll, and the mapping of its error
unfoldable pub read_all : List ℕ → End → Result BodyError (List ℕ)
read_all b eof = if ltb max_batch_bytes (length b) then err too_large else ok b
read_all b max_bytes = err too_large
read_all b broken = err unreadable

-- compress/gzip is a parameter: `none` is the error of gzip.NewReader.
module _ (gunzip : Stream → Option Stream) where
  unfoldable pub read_body : String → Stream → Result BodyError (List ℕ)
  read_body content_encoding body =
      let src = max_bytes_reader max_batch_bytes body in
      if content_encoding == "gzip"
      then elim (gunzip src) [
        | none ↦ err unreadable
        | some s ↦ let s' = limit_reader (max_batch_bytes + 1) s in read_all s'.content s'.ending
      ]
      else read_all src.content src.ending
