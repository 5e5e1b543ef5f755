-- ===== src/CacheSet/Bytes.antt =====
-- `memcpy` out of and into the bytes of a set.
use sniper.Base.{
  ℕ, zero, suc, ◌+◌, ◌≤◌, ◌≡◌, refl, ap, ◌⊎◌, inl, inr, List, [], ◌∷◌, length, take, drop, arith,
}

pub read_bytes : ℕ → ℕ → List ℕ → List ℕ
read_bytes at n bytes = take n (drop at bytes)

-- A copy that runs past the end keeps what is inside.
pub write_bytes : ℕ → List ℕ → List ℕ → List ℕ
write_bytes at buff [] = []
write_bytes zero [] (x ∷ bytes) = x ∷ bytes
write_bytes zero (y ∷ buff) (x ∷ bytes) = y ∷ write_bytes zero buff bytes
write_bytes (suc at) buff (x ∷ bytes) = x ∷ write_bytes at buff bytes

pub write_bytes-length :
    (at : ℕ) (buff bytes : List ℕ) → length (write_bytes at buff bytes) ≡ length bytes
unfolding write_bytes
write_bytes-length at buff [] = refl
write_bytes-length zero [] (x ∷ bytes) = refl
write_bytes-length zero (y ∷ buff) (x ∷ bytes) = ap suc (write_bytes-length zero buff bytes)
write_bytes-length (suc at) buff (x ∷ bytes) = ap suc (write_bytes-length at buff bytes)

-- What was written is read back.
pub read-write_bytes :
    (at : ℕ) (buff bytes : List ℕ)
    → at + length buff ≤ length bytes
    → read_bytes at (length buff) (write_bytes at buff bytes) ≡ buff
unfolding read_bytes write_bytes
read-write_bytes zero [] bytes h = refl
read-write_bytes zero (y ∷ buff) [] h = absurd (omega arith)
read-write_bytes zero (y ∷ buff) (x ∷ bytes) h =
    ap (◌∷◌ y) (read-write_bytes zero buff bytes (omega arith))
read-write_bytes (suc at) buff [] h = absurd (omega arith)
read-write_bytes (suc at) buff (x ∷ bytes) h = read-write_bytes at buff bytes (omega arith)

take-write_bytes :
    (at n : ℕ) (buff bytes : List ℕ) → n ≤ at → take n (write_bytes at buff bytes) ≡ take n bytes
unfolding write_bytes
take-write_bytes at zero buff bytes h = refl
take-write_bytes at (suc n) buff [] h = refl
take-write_bytes zero (suc n) buff (x ∷ bytes) h = absurd (omega arith)
take-write_bytes (suc at) (suc n) buff (x ∷ bytes) h =
    ap (◌∷◌ x) (take-write_bytes at n buff bytes (omega arith))

drop-write_bytes :
    (at at' : ℕ) (buff bytes : List ℕ)
    → at + length buff ≤ at'
    → drop at' (write_bytes at buff bytes) ≡ drop at' bytes
unfolding write_bytes
drop-write_bytes at at' buff [] h = refl
drop-write_bytes zero at' [] (x ∷ bytes) h = refl
drop-write_bytes zero zero (y ∷ buff) (x ∷ bytes) h = absurd (omega arith)
drop-write_bytes zero (suc at') (y ∷ buff) (x ∷ bytes) h =
    drop-write_bytes zero at' buff bytes (omega arith)
drop-write_bytes (suc at) zero buff (x ∷ bytes) h = absurd (omega arith)
drop-write_bytes (suc at) (suc at') buff (x ∷ bytes) h =
    drop-write_bytes at at' buff bytes (omega arith)

-- A write behind what is read is not seen.
read-write_bytes_behind :
    (at at' n : ℕ) (buff bytes : List ℕ)
    → at' + n ≤ at
    → read_bytes at' n (write_bytes at buff bytes) ≡ read_bytes at' n bytes
unfolding read_bytes write_bytes
read-write_bytes_behind at zero n buff bytes h = take-write_bytes at n buff bytes (omega arith)
read-write_bytes_behind at (suc at') n buff [] h = refl
read-write_bytes_behind zero (suc at') n buff (x ∷ bytes) h = absurd (omega arith)
read-write_bytes_behind (suc at) (suc at') n buff (x ∷ bytes) h =
    read-write_bytes_behind at at' n buff bytes (omega arith)

-- Nor is one anywhere else that does not meet it.
pub read-write_bytes_apart :
    (at at' n : ℕ) (buff bytes : List ℕ)
    → (at' + n ≤ at) ⊎ (at + length buff ≤ at')
    → read_bytes at' n (write_bytes at buff bytes) ≡ read_bytes at' n bytes
unfolding read_bytes
read-write_bytes_apart at at' n buff bytes (inl h) = read-write_bytes_behind at at' n buff bytes h
read-write_bytes_apart at at' n buff bytes (inr h) =
    ap (take n) (drop-write_bytes at at' buff bytes h)
