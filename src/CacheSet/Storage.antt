-- ===== src/CacheSet/Storage.antt =====
-- The bytes of a set: what `write_line` puts in a line `read_line` gets out of it, and no line
-- shares a byte with another.
use mathlib.Core.Option
use sniper.Base.{
  ℕ, ◌+◌, ◌*◌, ◌≤◌, ◌<◌, ◌≡◌, ◌≢◌, refl, ap, ◌⊎◌, inl, inr, Bool, Option, none, some, List, length,
  arith, ℕ_discrete, dec_lt,
}
use sniper.BlockInfo.{BlockInfo}
use sniper.CacheSet.Policy.{ReplacementPolicy, PolicyLaws}
use sniper.CacheSet.Bytes.{read_bytes, write_bytes, read-write_bytes, read-write_bytes_apart}
use sniper.CacheSet.Invariant.{IsValid, write_line_lem}
use sniper.CacheSet.{CacheSet, position, line_bytes, store, write_line}

inside_line :
    (i ways size offset n : ℕ) → i < ways → offset + n ≤ size → i * size + offset + n ≤ ways * size
inside_line i ways size offset n h k = grind arith

lines_apart :
    (i j size o n o' n' : ℕ)
    → i < j
    → o + n ≤ size
    → o' + n' ≤ size
    → i * size + o + n ≤ j * size + o'
lines_apart i j size o n o' n' h k l = grind arith

module _ (b : BlockInfo) (p : ReplacementPolicy b) {ways : ℕ} (laws : PolicyLaws b p ways)
    (s : CacheSet b p) (v : IsValid b p laws s) where
  position_lem :
      (i offset n : ℕ)
      → i < ways
      → offset + n ≤ s.blocksize
      → position b p s i offset ≡ i * s.blocksize + offset
  position_lem i offset n h k =
      let f = inside_line i s.associativity s.blocksize offset n (omega (arith, v.assoc)) k in
      omega (arith, f, v.fits)

  stored_back :
      (bytes : Option (List ℕ)) (at : ℕ) (buff : List ℕ) {old : List ℕ}
      → bytes ≡ some old
      → at + length buff ≤ length old
      → Option.map (read_bytes at (length buff)) (Option.map (write_bytes at buff) bytes)
        ≡ some buff
  stored_back bytes at buff {old} e h = rw e (ap some (read-write_bytes at buff old h))

  stored_apart :
      (bytes : Option (List ℕ)) (at at' n : ℕ) (buff : List ℕ)
      → (at' + n ≤ at) ⊎ (at + length buff ≤ at')
      → Option.map (read_bytes at' n) (Option.map (write_bytes at buff) bytes)
        ≡ Option.map (read_bytes at' n) bytes
  stored_apart none at at' n buff h = refl
  stored_apart (some old) at at' n buff h = ap some (read-write_bytes_apart at at' n buff old h)

  sized_of : {old : List ℕ} → s.bytes ≡ some old → length old ≡ s.associativity * s.blocksize
  sized_of e = rw e at v.sized

  apart_lem :
      (i offset m j o n : ℕ)
      → i < ways
      → offset + m ≤ s.blocksize
      → j < ways
      → o + n ≤ s.blocksize
      → (i ≢ j) ⊎ ((o + n ≤ offset) ⊎ (offset + m ≤ o))
      → (position b p s j o + n ≤ position b p s i offset)
        ⊎ (position b p s i offset + m ≤ position b p s j o)
  apart_lem i offset m j o n hi inside hj k apart =
      rw (position_lem i offset m hi inside, position_lem j o n hj k)
        (elim (ℕ_discrete i j) [
          | yes e ↦ rw e (omega arith)
          | no ne ↦ elim (dec_lt i j) [
            | yes l ↦ inr (lines_apart i j s.blocksize offset m o n l inside k)
            | no l ↦ inl (lines_apart j i s.blocksize o n offset m (omega arith) k inside)
          ]
        ])

  -- In a valid set with bytes, a write inside a line succeeds and keeps the set valid; the same
  -- place then reads as what was written, and any place inside another line, or beside it in the
  -- line, reads as before.
  pub write_line-read_line :
      (i offset : ℕ) (buff : List ℕ) (update : Bool) {old : List ℕ}
      → s.bytes ≡ some old
      → i < ways
      → offset + length buff ≤ s.blocksize
      → (s' : CacheSet b p) × (write_line b p s i offset (some buff) (length buff) update ≡ some s')
        × IsValid b p laws s'
        × (line_bytes b p s' i offset (length buff) ≡ some buff)
        × ((j o n : ℕ)
            → j < ways
            → o + n ≤ s.blocksize
            → (i ≢ j) ⊎ ((o + n ≤ offset) ⊎ (offset + length buff ≤ o))
            → line_bytes b p s' j o n ≡ line_bytes b p s j o n)
  unfolding store
  write_line-read_line i offset buff update {old} has hi inside =
      let f =
        inside_line i s.associativity s.blocksize offset (length buff) (omega (arith, v.assoc))
          inside in
      elim (write_line_lem b p laws s i offset (some buff) (length buff) update hi
        (omega (arith, f, v.fits)) v) [
          | inl (_, past) ↦ absurd (omega arith)
          | inr (s', e, _, valid, bytes, _, size) ↦ (
            s',
            e,
            valid,
            rw (size, bytes)
                (stored_back s.bytes (position b p s i offset) buff has
                  (omega (arith, position_lem i offset (length buff) hi inside, f, sized_of has))),
            λ j o n hj k apart.
                rw (size, bytes)
                  (stored_apart s.bytes (position b p s i offset) (position b p s j o) n buff
                    (apart_lem i offset (length buff) j o n hi inside hj k apart)),
          )
        ]
