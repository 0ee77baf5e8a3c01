-- ===== src/Util/Secrets.antt =====
-- The comparison of secrets.
use rove.Base.{ℕ, zero, suc, ◌+◌, ◌≤◌, ◌<◌, max, bit_or, bit_xor}
use rove.Base.{◌≡◌, refl, sym, ◌↔◌, inl, inr, true, [], ◌∷◌, arith}
use rove.Base.{◌==◌, ==_iff, Bool-cases}
use rove.Base.{length}
use rove.Base.Bytes.{byte_at}
use rove.Base.Eq.{nat_eq, list_eq}
use rove.Base.Text.{Text}
use mathlib.Core.Path.{subst}
use rove.Base.Bits.{bit_xor_zero, bit_xor_self, bit_or_zero}
use rove.Util.{diff_loop, constant_time_eq}

-- The loop leaves zero just when it starts with zero and each pair of bytes is equal.
diff_loop_zero :
    (n i : ℕ) (left right : Text) (diff : ℕ)
    → diff_loop n i left right diff ≡ 0
    → (diff ≡ 0) × ((k : ℕ) → i ≤ k → k < i + n → byte_at left k ≡ byte_at right k)
unfolding diff_loop
diff_loop_zero zero i left right diff h = (h, λ k low high. absurd (omega arith))
diff_loop_zero (suc n) i left right diff h =
    let (now, later) =
      diff_loop_zero n (i + 1) left right (bit_or diff (bit_xor (byte_at left i) (byte_at right i)))
        h in
    let (start, pair) = bit_or_zero diff (bit_xor (byte_at left i) (byte_at right i)) now in
    (
      start,
      λ k low high. elim (Bool-cases (k == i)) [
        | inl at ↦
            let e : i ≡ k = sym ((==_iff k i).0 at) in
            subst (λ j. byte_at left j ≡ byte_at right j) e (bit_xor_zero _ _ pair)
        | inr off ↦ later k (ground arith) (omega arith)
      ],
    )

diff_loop_same : (n i : ℕ) (s : Text) → diff_loop n i s s 0 ≡ 0
unfolding diff_loop
diff_loop_same zero i s = refl
diff_loop_same (suc n) i s = rw (bit_xor_self (byte_at s i)) (diff_loop_same n (i + 1) s)

equal_bytes :
    (s t : Text)
    → length s ≡ length t
    → ((k : ℕ) → k < length s → byte_at s k ≡ byte_at t k)
    → s ≡ t
equal_bytes [] [] size h = refl
equal_bytes [] (d ∷ t) size h = absurd (omega arith)
equal_bytes (c ∷ s) [] size h = absurd (omega arith)
equal_bytes (c ∷ s) (d ∷ t) size h =
    let first : c ≡ d = h 0 (omega arith) in
    let rest : s ≡ t = equal_bytes s t (omega arith) (λ k below. h (suc k) (omega arith)) in cc

-- The comparison that looks at every byte is true just for equal texts, whatever their lengths.
pub constant_time_eq_iff :
    (left right : Text) → (constant_time_eq left right ≡ true) ↔ (left ≡ right)
unfolding constant_time_eq
constant_time_eq_iff left right = (
  λ h.
      let n = max (length left) (length right) in
      let start = bit_xor (length left) (length right) in
      let (sizes, bytes) =
        diff_loop_zero n 0 left right start ((==_iff (diff_loop n 0 left right start) 0).0 h) in
      let size = bit_xor_zero (length left) (length right) sizes in
      equal_bytes left right size (λ k below. bytes k (omega arith) (omega arith)),
  λ e. subst (λ t. constant_time_eq left t ≡ true) e (same left),
)
  where
    same : (s : Text) → constant_time_eq s s ≡ true
    same s =
        rw
          (
            bit_xor_self (length s),
            diff_loop_same (max (length s) (length s)) 0 s,
            constant_time_eq,
          )
          refl
