-- ===== src/Emitter/Laws.antt =====
-- What `emit` of src/utils/compact-event.ts does with plain listeners, and with a one-time listener.
use njs_modbus.Common.{
  drop, eq→==, ℕ, zero, suc, ◌≡◌, refl, true, false, List, [], ◌∷◌, none, some, length, All,
}
use njs_modbus.Emitter.{
  Listener, plain, wrapper, matches, remove, item_at, list_after, call_then, emit_loop, emit,
}

abbrev pub IsPlain : Listener → Type 0
IsPlain (plain f) = Unit {0}
IsPlain (wrapper w f) = ⊥

-- The functions of the listeners.
abbrev pub functions : List Listener → List ℕ
functions [] = []
functions (plain f ∷ rest) = f ∷ functions rest
functions (wrapper w f ∷ rest) = f ∷ functions rest

-- The item at an index begins what is left from the index on.
item_at-drop :
    (list : List Listener) (i : ℕ) (item : Listener) (rest : List Listener)
    → drop i list ≡ item ∷ rest
    → (item_at list i ≡ some item) × (drop (suc i) list ≡ rest)
unfolding item_at
item_at-drop [] zero item rest e = absurd (cc)
item_at-drop [] (suc i) item rest e = absurd (cc)
item_at-drop (first ∷ list) zero item rest e = (cc, cc)
item_at-drop (first ∷ list) (suc i) item rest e = item_at-drop list i item rest e

past_end : (list : List Listener) (i : ℕ) → drop i list ≡ [] → item_at list i ≡ none
unfolding item_at
past_end [] i e = refl
past_end (first ∷ list) zero e = absurd (cc)
past_end (first ∷ list) (suc i) e = past_end list i e

-- The loop over plain listeners, with the rounds that are left at the end of `rest`.
plain_loop :
    (rest list : List Listener) (i : ℕ)
    → drop i list ≡ rest
    → All IsPlain rest
    → emit_loop (length rest) i list ≡ record { calls = functions rest; threw = false; left = list }
unfolding emit_loop call_then list_after
plain_loop [] list i e h = refl
plain_loop (plain f ∷ rest) list i e h =
    let (here, next) = item_at-drop list i (plain f) rest e in
    rw (here, plain_loop rest list (suc i) next h.1) refl
plain_loop (wrapper w f ∷ rest) list i e h = absurd h.0

-- The same with one round too many.
overrun :
    (rest list : List Listener) (i : ℕ)
    → drop i list ≡ rest
    → All IsPlain rest
    → emit_loop (suc (length rest)) i list
      ≡ record { calls = functions rest; threw = true; left = list }
unfolding emit_loop call_then list_after
overrun [] list i e h = rw (past_end list i e) refl
overrun (plain f ∷ rest) list i e h =
    let (here, next) = item_at-drop list i (plain f) rest e in
    rw (here, overrun rest list (suc i) next h.1) refl
overrun (wrapper w f ∷ rest) list i e h = absurd h.0

-- Where no listener is a one-time listener, `emit` calls all of them once, in the order of their
-- registration, without a failure, and keeps them.
pub emit-plain :
    (list : List Listener)
    → All IsPlain list
    → emit list ≡ record { calls = functions list; threw = false; left = list }
unfolding emit
emit-plain list h = plain_loop list list 0 refl h

remove_first : (w f : ℕ) (rest : List Listener) → remove w (wrapper w f ∷ rest) ≡ rest
unfolding remove matches
remove_first w f rest = rw (eq→== w w refl) refl

-- With a one-time listener in front of others that are not, `emit` calls the one-time listener,
-- passes over the one behind it, calls the rest, and then fails on an entry that is undefined.
pub emit-once :
    (w f g : ℕ) (rest : List Listener)
    → All IsPlain rest
    → emit (wrapper w f ∷ plain g ∷ rest)
      ≡ record { calls = f ∷ functions rest; threw = true; left = plain g ∷ rest }
unfolding emit emit_loop item_at list_after call_then
emit-once w f g rest h =
    rw (remove_first w f (plain g ∷ rest), overrun rest (plain g ∷ rest) 1 refl h) refl
