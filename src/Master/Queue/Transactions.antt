-- ===== src/Master/Queue/Transactions.antt =====
-- The search of `_runExchange` in src/master/master.ts for a transaction id that no request uses.
use njs_modbus.Common.{
  ℕ, zero, suc, ◌+◌, ◌≤◌, ◌<◌, ◌≡◌, refl, arith, true, false, [], ◌∷◌, Bool-cases, ==→eq, ◌⊎◌, inl,
  inr, ◌==◌, ap, ◌∙◌, length,
}
use njs_modbus.Session.{
  Key, transaction_id, key_eq, Waiters, get_waiter, delete_waiter, has, is_some,
}
use njs_modbus.Session.Answers.{get-delete_other}
use njs_modbus.Master.Queue.{following, transaction_loop}

abbrev pub IsTransaction : ℕ → Type 0
IsTransaction id = (0 < id) × (id < 65536)

pub following-IsTransaction : (id : ℕ) → IsTransaction (following id)
following-IsTransaction id = ground arith

following_last : (id : ℕ) → (id == 65535) ≡ true → following id ≡ 1
following_last id h = ground arith

following_next : (id : ℕ) → IsTransaction id → (id == 65535) ≡ false → following id ≡ id + 1
following_next id i h = ground arith

-- The `n` ids from an id on are all in use.
abbrev AreTaken : ℕ → ℕ → Waiters → Type 0
AreTaken zero id waiters = Unit {0}
AreTaken (suc n) id waiters =
    (has (transaction_id id) waiters ≡ true) × AreTaken n (following id) waiters

-- `id` comes `k` ids behind `first`.
abbrev IsBehind : ℕ → ℕ → ℕ → Type 0
IsBehind k first id = (first + k ≡ id) ⊎ (first + k ≡ id + 65535)

following-IsBehind :
    (k first id : ℕ)
    → IsTransaction first
    → IsTransaction id
    → k < 65535
    → IsBehind k first id
    → IsBehind (suc k) first (following id)
following-IsBehind k first id f i h b = elim (Bool-cases (id == 65535)) [
  | inl last ↦
      let wraps : following id ≡ 1 = following_last id last in
      inr (
        rw wraps (elim b [
          | inl e ↦ omega (arith, e, ==→eq id 65535 last)
          | inr e ↦ absurd (omega (arith, e, ==→eq id 65535 last))
        ]))
  | inr inside ↦
      let goes_on = following_next id i inside in
      elim b [
        | inl e ↦ inl (rw goes_on (omega (arith, e)))
        | inr e ↦ inr (rw goes_on (omega (arith, e)))
      ]
]

apart :
    (k first id : ℕ)
    → IsTransaction first
    → IsTransaction id
    → 0 < k
    → k < 65535
    → IsBehind k first id
    → (first == id) ≡ false
apart k first id f i p h b = ground arith

has-delete :
    (first id : ℕ) (waiters : Waiters)
    → (first == id) ≡ false
    → has (transaction_id id) (delete_waiter (transaction_id first) waiters)
      ≡ has (transaction_id id) waiters
unfolding has key_eq
has-delete first id waiters e =
    ap is_some (get-delete_other (transaction_id id) (transaction_id first) waiters e)

length-delete_waiter :
    (key : Key) (waiters : Waiters)
    → has key waiters ≡ true
    → suc (length (delete_waiter key waiters)) ≡ length waiters
unfolding has get_waiter delete_waiter is_some
length-delete_waiter key [] e = absurd (cc)
length-delete_waiter key (entry ∷ rest) e = elim (Bool-cases (key_eq entry.0 key)) [
  | inl found ↦ rw found refl
  | inr other ↦ rw other (ap suc (length-delete_waiter key rest (rw other at e)))
]

AreTaken-delete :
    (n k first id : ℕ) (waiters : Waiters)
    → IsTransaction first
    → IsTransaction id
    → 0 < k
    → k + n ≤ 65535
    → IsBehind k first id
    → AreTaken n id waiters
    → AreTaken n id (delete_waiter (transaction_id first) waiters)
AreTaken-delete zero k first id waiters f i p h b t = tt
AreTaken-delete (suc n) k first id waiters f i p h b t =
    let less : k < 65535 = omega arith in
    (
      has-delete first id waiters (apart k first id f i p less b) ∙ t.0,
      AreTaken-delete n (suc k) first (following id) waiters f (following-IsTransaction id)
          (omega arith) (omega arith) (following-IsBehind k first id f i less b) t.1,
    )

-- Ids in a row that are all in use are no more than the requests that wait.
AreTaken-few :
    (n id : ℕ) (waiters : Waiters)
    → IsTransaction id
    → n ≤ 65535
    → AreTaken n id waiters
    → n ≤ length waiters
AreTaken-few zero id waiters i h t = omega arith
AreTaken-few (suc n) id waiters i h t =
    let left = delete_waiter (transaction_id id) waiters in
    let fewer : n ≤ length left =
      AreTaken-few n (following id) left (following-IsTransaction id) (omega arith) (
        AreTaken-delete n 1 id (following id) waiters i (following-IsTransaction id) (omega arith)
          (omega arith) (following-IsBehind 0 id id i i (omega arith) (inl (omega arith))) t.1) in
    omega (arith, length-delete_waiter (transaction_id id) waiters t.0, fewer)

abbrev pub IsFree : ℕ × ℕ → Waiters → Type 0
IsFree chosen waiters =
    (has (transaction_id chosen.0) waiters ≡ false)
    × IsTransaction chosen.0
    × IsTransaction chosen.1

loop_cases :
    (fuel id : ℕ) (waiters : Waiters)
    → IsTransaction id
    → IsFree (transaction_loop fuel id waiters) waiters ⊎ AreTaken (suc fuel) id waiters
unfolding transaction_loop
loop_cases zero id waiters i = elim (Bool-cases (has (transaction_id id) waiters)) [
  | inl taken ↦ inr (taken, tt)
  | inr free ↦ inl (free, i, following-IsTransaction id)
]
loop_cases (suc fuel) id waiters i = elim (Bool-cases (has (transaction_id id) waiters)) [
  | inl taken ↦
      rw taken (elim (loop_cases fuel (following id) waiters (following-IsTransaction id)) [
        | inl free ↦ inl free
        | inr more ↦ inr (refl, more)
      ])
  | inr free ↦ rw free (inl (free, i, following-IsTransaction id))
]

-- While fewer than 65534 requests wait, the loop of _runExchange ends within one round more than
-- requests wait, and the transaction id that it finds is from 1 to 65535 and is that of no request that
-- waits; so is the next id to try from 1 to 65535.
pub transaction_loop-IsFree :
    (id : ℕ) (waiters : Waiters)
    → IsTransaction id
    → length waiters < 65534
    → IsFree (transaction_loop (suc (length waiters)) id waiters) waiters
transaction_loop-IsFree id waiters i h = elim (loop_cases (suc (length waiters)) id waiters i) [
  | inl free ↦ free
  | inr taken ↦
      let few = AreTaken-few (suc (suc (length waiters))) id waiters i (omega arith) taken in
      absurd (omega (arith, few))
]
