-- ===== src/Cache/Manifest/Digest.antt =====
-- cache/manifest.py: `file_sha256`, which reads a file in chunks of 1 MiB. The digest is hashlib's.
use hftbacktest_tw.Prelude.{
  ℕ, zero, suc, ◌<◌, ◌≤◌, ◌≡◌, refl, sym, ap, ◌∙◌, arith, Option, none, some, List, [], ◌∷◌, ◌++◌,
  length,
}
use hftbacktest_tw.Values.{Text}
use hftbacktest_tw.Cache.Manifest.{drop, take}

-- A digest object: `sha256()`, `digest.update(data)` and `digest.hexdigest()`.
pub record Hash : Type 1 where
  pub Digest : Type 0
  pub start : Digest
  pub update : Digest → List ℕ → Digest
  pub hexdigest : Digest → Text

-- Repeated updates are one update with the concatenation of their data.
pub record IsHash (h : Hash) : Type 0 where
  pub update-nothing : (d : h.Digest) → h.update d [] ≡ d
  pub update-append :
      (d : h.Digest) (a b : List ℕ) → h.update (h.update d a) b ≡ h.update d (a ++ b)

module _ (h : Hash) where
  -- `for chunk in iter(lambda: handle.read(size), b""): digest.update(chunk)`, with at most `fuel`
  -- reads; `bytes` is what is left of the file.
  unfoldable pub read_chunks : ℕ → ℕ → h.Digest → List ℕ → Option h.Digest
  unfolding take drop
  read_chunks size zero digest bytes = none
  read_chunks size (suc fuel) digest bytes =
      let rest = read_chunks size fuel (h.update digest (take size bytes)) (drop size bytes) in
      elim (take size bytes) [ [] ↦ some digest | _ ∷ _ ↦ rest ]

  abbrev pub chunk_bytes : ℕ
  chunk_bytes = 1048576

  -- One read for each byte, and the empty one at the end, are enough.
  unfoldable pub file_sha256 : List ℕ → Option Text
  unfolding read_chunks
  file_sha256 bytes = elim (read_chunks chunk_bytes (suc (length bytes)) h.start bytes) [
    | none ↦ none
    | some digest ↦ some (h.hexdigest digest)
  ]

  take-append-drop : (n : ℕ) (bytes : List ℕ) → (take n bytes ++ drop n bytes) ≡ bytes
  unfolding take drop
  take-append-drop zero bytes = refl
  take-append-drop (suc n) [] = refl
  take-append-drop (suc n) (b ∷ bytes) = ap (λ rest. b ∷ rest) (take-append-drop n bytes)

  length-drop : (n : ℕ) (bytes : List ℕ) → length (drop n bytes) ≤ length bytes
  unfolding drop
  length-drop zero bytes = omega arith
  length-drop (suc n) [] = omega arith
  length-drop (suc n) (b ∷ bytes) = omega (arith, length-drop n bytes)

  module _ (law : IsHash h) where
    read_chunks-all :
        (size fuel : ℕ) (digest : h.Digest) (bytes : List ℕ)
        → length bytes < fuel
        → read_chunks (suc size) fuel digest bytes ≡ some (h.update digest bytes)
    unfolding read_chunks take drop
    read_chunks-all size zero digest bytes enough = absurd (omega arith)
    read_chunks-all size (suc fuel) digest [] enough = ap some (sym (law.update-nothing digest))
    read_chunks-all size (suc fuel) digest (b ∷ bytes) enough =
        read_chunks-all size fuel (h.update digest (b ∷ take size bytes)) (drop size bytes)
          (omega (arith, length-drop size bytes))
        ∙ ap some (
            law.update-append digest (b ∷ take size bytes) (drop size bytes)
            ∙ ap (λ rest. h.update digest (b ∷ rest)) (take-append-drop size bytes))

    -- If repeated updates of a digest are one update with all their data: the loop over the chunks of a
    -- file ends, and its sum is that of the whole contents.
    pub file_sha256-whole :
        (bytes : List ℕ) → file_sha256 bytes ≡ some (h.hexdigest (h.update h.start bytes))
    unfolding file_sha256
    file_sha256-whole bytes =
        rw (read_chunks-all 1048575 (suc (length bytes)) h.start bytes (omega arith)) refl
