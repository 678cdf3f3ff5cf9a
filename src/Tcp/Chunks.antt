-- ===== src/Tcp/Chunks.antt =====
-- The `data` events of the transport, and what tcp-protocol-layer.ts makes of several of them.
use njs_modbus.Common.{
  ℕ, ◌≡◌, sym, ap, ◌∙◌, length-append, List, [], ◌∷◌, ◌++◌, append-nil, append_assoc, arith,
}
use mathlib.Core.Path.{subst}
use njs_modbus.Tcp.{Event, TcpLayer, decode, feed}
use njs_modbus.Tcp.Stream.{
  IsWaiting, Parses, waits, bad_protocol, bad_length, next_frame, Parses-IsWaiting, Parses-append,
  NoErrors,
}
use njs_modbus.Tcp.Loop.{be16-append, parses, Parses-unique}
use njs_modbus.Tcp.Decode.{decode_reads}

abbrev pub concat : List (List ℕ) → List ℕ
concat [] = []
concat (chunk ∷ chunks) = chunk ++ concat chunks

NoErrors-right : (xs ys : List Event) → NoErrors (xs ++ ys) → NoErrors ys
NoErrors-right [] ys n = n
NoErrors-right (e ∷ xs) ys n = NoErrors-right xs ys n.1

-- Two readings of one stream are free of errors together.
NoErrors-unique :
    {xs : List ℕ} {events events' : List Event} {left left' : List ℕ}
    → Parses xs events left
    → Parses xs events' left'
    → NoErrors events'
    → NoErrors events
NoErrors-unique p q n = subst (λ (z : List Event × List ℕ). NoErrors z.0) (Parses-unique q p) n

-- A prefix of a stream without errors has none.
prefix_reads :
    (ys : List ℕ) {xs : List ℕ} {events : List Event} {left : List ℕ}
    → {all : List Event} {last : List ℕ} → Parses xs events left
    → Parses (xs ++ ys) all last
    → NoErrors all
    → NoErrors events
prefix_reads ys (waits xs w) q n = tt
prefix_reads ys (bad_protocol xs s p) q n =
    absurd
      (NoErrors-unique
        (bad_protocol (xs ++ ys) (omega (arith, length-append xs ys))
          (rw (be16-append xs ys 2 (omega arith)) p))
        q n).0
prefix_reads ys (bad_length xs s p e) q n =
    absurd
      (NoErrors-unique
        (bad_length (xs ++ ys) (omega (arith, length-append xs ys))
          (rw (be16-append xs ys 2 (omega arith)) p) (rw (be16-append xs ys 4 (omega arith)) e))
        q n).0
prefix_reads ys (next_frame f {rest} a p) q n =
    let (events, left, p') = parses (rest ++ ys) in
    let q' = rw append_assoc at q in
    (tt, prefix_reads ys p p' (NoErrors-unique (next_frame f a p') q' n).1)

-- However a stream without errors is cut into chunks, feeding them one after another to a layer
-- whose residual bytes await completion gives the events of the stream in its order, and leaves
-- the same bytes.
pub feed_reads :
    (chunks : List (List ℕ)) (layer : TcpLayer) {events : List Event} {left : List ℕ}
    → IsWaiting layer.residual
    → Parses (layer.residual ++ concat chunks) events left
    → NoErrors events
    → feed layer chunks ≡ (events, record { residual = left })
unfolding feed
feed_reads [] layer w p n =
    ap (λ (z : List Event × List ℕ). (z.0, record { residual = z.1 }))
      (Parses-unique (waits layer.residual w) (rw append-nil at p))
feed_reads (chunk ∷ chunks) layer {events} {left} w p n =
    let (first, mid, q) = parses (layer.residual ++ chunk) in
    let whole = rw (← append_assoc) at p in
    let clean = prefix_reads (concat chunks) q whole n in
    let (rest, last, q') = parses (mid ++ concat chunks) in
    let both = Parses-append (concat chunks) q clean q' in
    rw
      (
        decode_reads layer chunk w q,
        feed_reads chunks (record { residual = mid }) (Parses-IsWaiting q) q'
            (NoErrors-right first rest (NoErrors-unique both whole n)),
      )
      (ap (λ (z : List Event × List ℕ). (z.0, record { residual = z.1 }))
        (Parses-unique both whole))

-- Feeding the chunks is the same as decoding all their bytes at once, on a layer whose residual
-- bytes await completion, and for a stream that gives no errors when decoded at once.
pub feed-eq-decode :
    (chunks : List (List ℕ)) (layer : TcpLayer)
    → IsWaiting layer.residual
    → NoErrors (decode layer (concat chunks)).0
    → feed layer chunks ≡ decode layer (concat chunks)
feed-eq-decode chunks layer w n =
    let (events, left, p) = parses (layer.residual ++ concat chunks) in
    let at_once = decode_reads layer (concat chunks) w p in
    feed_reads chunks layer w p (subst (λ (z : List Event × TcpLayer). NoErrors z.0) at_once n)
    ∙ sym at_once
