-- ===== src/Target/CsvReader.antt =====
-- `_CsvChunkReader` and `_iter_csv_chunks` of src/dbextractors/core/target_pg.py: the file-like
-- object that `copy_expert` reads. Characters are of any type `A`.
pub mod Refinement
pub mod Ending
use dbextractors.Base.{
  ℕ, ◌+◌, Bool, true, false, not, ◌&&◌, Option, none, some, List, [], ◌∷◌, ◌++◌, map,
}
use dbextractors.Base.{ltb, leb, if◌then◌else◌, length, take, drop, flatten, nat_eq}
use dbextractors.Base.Ranges.{range, slice}

-- `_iter_csv_chunks`. `to_csv` is pandas' `DataFrame.to_csv`; a step of 0 is refused by `range`.
unfoldable pub iter_csv_chunks {ℓ κ} :
    {Row : Type ℓ} {A : Type κ} → (List Row → List A) → List Row → ℕ → Option (List (List A))
unfolding range slice
iter_csv_chunks to_csv df chunk_rows =
    if nat_eq chunk_rows 0
    then none
    else some (
        map (λ start. to_csv (slice start (start + chunk_rows) df))
          (range 0 (length df) chunk_rows))

pub record Reader {ℓ} (A : Type ℓ) : Type ℓ where
  pub chunks : List (List A)
  pub buffer : List A
  pub offset : ℕ
  pub exhausted : Bool

module _ {ℓ} {A : Type ℓ} where
  -- A reader over the chunks still to come (`__init__`).
  abbrev pub fresh : List (List A) → Reader A
  fresh chunks = record { chunks = chunks; buffer = []; offset = 0; exhausted = false }

  unfoldable pub compact : Reader A → Reader A
  compact r = if ltb 0 r.offset then record r { buffer = drop r.offset r.buffer; offset = 0 } else r

  -- The test of the loop of `_fill`.
  abbrev needs_more : ℕ → Reader A → Bool
  needs_more size r = ltb (length r.buffer) (r.offset + size) && not r.exhausted

  -- The loop of `_fill`, by recursion on the chunks that are left, which are `r.chunks`.
  unfoldable pub fill : ℕ → List (List A) → Reader A → Reader A
  unfolding compact
  fill size [] r =
      if needs_more size r then record (compact r) { chunks = []; exhausted = true } else r
  fill size (c ∷ cs) r =
      let r' = compact r in
      let rest = fill size cs (record r' { chunks = cs; buffer = r'.buffer ++ c }) in
      if needs_more size r then rest else r

  -- After a piece has been handed out, a buffer that is read to its end is dropped.
  abbrev release : Reader A → Reader A
  release r = if leb (length r.buffer) r.offset then record r { buffer = []; offset = 0 } else r

  -- `read`. `none` is a size of None or below 0: all that is left.
  unfoldable pub read : Option ℕ → Reader A → List A × Reader A
  unfolding fill
  read none r = (
    drop r.offset r.buffer ++ flatten r.chunks,
    record { chunks = []; buffer = []; offset = 0; exhausted = true },
  )
  read (some size) r =
      let r' = fill size r.chunks r in
      let out = take size (drop r'.offset r'.buffer) in
      (out, release (record r' { offset = r'.offset + length out }))

  -- A sequence of reads, as the driver makes them: what they returned, and the reader after them.
  unfoldable pub reads : List ℕ → Reader A → List (List A) × Reader A
  reads [] r = ([], r)
  reads (size ∷ sizes) r =
      let (out, r') = read (some size) r in let (outs, r'') = reads sizes r' in (out ∷ outs, r'')
