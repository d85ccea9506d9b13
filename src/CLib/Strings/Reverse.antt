-- ===== src/CLib/Strings/Reverse.antt =====
-- strrev, in place.
use linux_operating_system.Prelude.{
  ℕ, zero, suc, ◌+◌, ◌-◌, ◌<◌, ◌≡◌, ap, ◌∙◌, fun_ext, inl, inr, ◌&&◌, some, arith, ltb, leb,
  if◌then◌else◌, Bool-cases, Memory,
}
use linux_operating_system.CLib.Strings.{strrev_from, strrev}
use linux_operating_system.CLib.Strings.Laws.{IsCString, strlen-IsCString}

-- The memory in which the block of `n` bytes at `s` stands in the opposite order.
abbrev pub mirrored : ℕ → ℕ → Memory → Memory
mirrored s n m x = if leb s x && ltb x (s + n) then m (s + (s + n) - 1 - x) else m x

strrev_from_lem :
    (stop s beg : ℕ) (m : Memory) (x : ℕ)
    → strrev_from stop s beg m x
      ≡ (if leb (s + beg) x && ltb x (s + stop) then m (s + beg + (s + stop) - 1 - x) else m x)
unfolding strrev_from
strrev_from_lem zero s beg m x = ground arith
strrev_from_lem (suc end) s beg m x = elim (Bool-cases (ltb beg end)) [
  | inl z ↦ rw (z, strrev_from) (strrev_from_lem end s (beg + 1) _ x ∙ ground arith)
  | inr z ↦ rw (z, strrev_from) (ground arith)
]

-- With fuel above the length, strrev turns a string round in place: its NUL and all other memory
-- stay as they are.
pub strrev-IsCString :
    (fuel : ℕ) {m : Memory} {s k : ℕ}
    → IsCString m s k
    → k < fuel
    → strrev fuel s m ≡ some (mirrored s k m)
unfolding strrev
strrev-IsCString fuel {m} {s} {k} h lt =
    rw (strlen-IsCString fuel h lt)
      (ap some (fun_ext λ x. strrev_from_lem k s 0 m x ∙ ground arith))
