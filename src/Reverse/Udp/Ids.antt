-- ===== src/Reverse/Udp/Ids.antt =====
-- The session ids that an edge hands out for one connection.
use rove.Base.{ℕ, zero, suc, ◌+◌, ◌*◌, ◌%◌, ◌^◌, ◌≤◌, ◌<◌}
use rove.Base.{◌≡◌, refl, ap, ◌≢◌, inl, inr, none, some, List, [], ◌∷◌, arith}
use rove.Base.{◌==◌, ==_iff, Bool-cases}
use rove.Base.{length, All}
use rove.Base.{IsDistinct, All-map}
use mathlib.Core.Path.{subst}
use rove.Reverse.Udp.{next_session_id}

-- The ids of so many calls in a row.
unfoldable pub issue : ℕ → ℕ → List ℕ
issue zero seq = []
issue (suc n) seq = elim (next_session_id 2 seq) [ none ↦ [] | some (id, rest) ↦ id ∷ issue n rest ]

-- Two rounds of the loop are enough from any counter: the id is not zero, and fits 32 bits as the
-- counter that is left does.
pub next_session_id_returns :
    (seq : ℕ)
    → seq < 2 ^ 32
    → (id : ℕ) × (rest : ℕ) × (next_session_id 2 seq ≡ some (id, rest))
      × (id ≢ 0)
      × (id < 2 ^ 32)
      × (rest < 2 ^ 32)
unfolding next_session_id
next_session_id_returns seq h = elim (Bool-cases (seq == 0)) [
  | inl zero_next ↦
      let e : seq ≡ 0 = (==_iff seq 0).0 zero_next in
      (1, 2, rw e refl, λ k. omega arith, omega arith, omega arith)
  | inr here ↦ (seq, (seq + 1) % 2 ^ 32, rw here refl, λ k. ground arith, h, omega arith)
]

-- The id comes from one of the next two values of the counter, which does not wrap here.
call :
    (v : ℕ)
    → (w : ℕ) × (v ≤ w)
      × (w ≤ v + 1)
      × (next_session_id 2 (v % 2 ^ 32) ≡ some (w % 2 ^ 32, (w + 1) % 2 ^ 32))
      × (w % 2 ^ 32 ≢ 0)
unfolding next_session_id
call v = elim (Bool-cases (v % 2 ^ 32 == 0)) [
  | inl zero_next ↦
      let e : v % 2 ^ 32 ≡ 0 = (==_iff (v % 2 ^ 32) 0).0 zero_next in
      let one : (v + 1) % 2 ^ 32 ≡ 1 = omega arith in
      let two : (v + 1 + 1) % 2 ^ 32 ≡ 2 = omega arith in
      (v + 1, omega arith, omega arith, rw (e, one, two) refl, λ k. omega arith)
  | inr here ↦
      let next : (v % 2 ^ 32 + 1) % 2 ^ 32 ≡ (v + 1) % 2 ^ 32 = omega arith in
      (v, omega arith, omega arith, rw (here, next) refl, λ k. ground arith)
]

abbrev Within : ℕ → ℕ → ℕ → Type 0
Within v n id = (w : ℕ) × (id ≡ w % 2 ^ 32) × (v ≤ w) × (w < v + 2 * n)

later : (v w n id : ℕ) → w ≤ v + 1 → v ≤ w → Within (w + 1) n id → Within v (suc n) id
later v w n id h k (x, e, low, high) = (x, e, omega arith, omega arith)

other : (w n id : ℕ) → 2 * n < 2 ^ 32 → Within (w + 1) n id → w % 2 ^ 32 ≢ id
other w n id h (x, e, low, high) k = omega arith

ids_from :
    (n v : ℕ)
    → 2 * n ≤ 2 ^ 32
    → All (Within v n) (issue n (v % 2 ^ 32))
      × IsDistinct (issue n (v % 2 ^ 32))
      × All (λ id. id ≢ 0) (issue n (v % 2 ^ 32))
      × (length (issue n (v % 2 ^ 32)) ≡ n)
unfolding issue
ids_from zero v h = (tt, tt, tt, refl)
ids_from (suc n) v h =
    let (w, low, high, e, used) = call v in
    let (near, distinct, nonzero, size) = ids_from n (w + 1) (omega arith) in
    rw (e, issue)
      (
        ((w, refl, low, omega arith), All-map _ _ _ (λ id. later v w n id high low) near),
        (All-map _ _ _ (λ id. other w n id (omega arith)) near, distinct),
        (used, nonzero),
        ap suc size,
      )

-- As many as 2^31 ids that a connection hands out in a row are all there, none of them zero, and no
-- two equal, also when the counter wraps around.
pub issue-IsDistinct :
    (n seq : ℕ)
    → n ≤ 2 ^ 31
    → seq < 2 ^ 32
    → (length (issue n seq) ≡ n) × All (λ id. id ≢ 0) (issue n seq) × IsDistinct (issue n seq)
issue-IsDistinct n seq few h =
    let e : seq % 2 ^ 32 ≡ seq = omega arith in
    let (_, distinct, nonzero, size) = ids_from n seq (omega arith) in
    subst (λ s. (length (issue n s) ≡ n) × All (λ id. id ≢ 0) (issue n s) × IsDistinct (issue n s))
      e (size, nonzero, distinct)
