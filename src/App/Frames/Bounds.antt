-- ===== src/App/Frames/Bounds.antt =====
-- src/app/Application.cpp: what is kept of a connection is bounded, whatever the other side writes.
use shelf_remote.App.Frames.Cutting.{front-shrinks}
use shelf_remote.Prelude.{
  refl, sym, subst, true, false, arith, zero, suc, [], length, Chars, ◌≡◌, ℕ, ◌<◌, ◌∷◌, List, ◌+◌,
  ◌≤◌, ◌++◌, if_elim, not, inl, inr, ◌⊎◌, Bool-cases,
}
use shelf_remote.App.Frames.{
  wait, bad, whole, Bytes, cut, front, drain, Conn, read_all, max_frame_bytes, deliver, new_conn,
  on_ready_read,
}

-- Nothing whole stands at the front.
abbrev IsShort : Bytes → Type 0
IsShort b = length b < 4 + max_frame_bytes

cut-IsShort : (len : ℕ) (rest : Bytes) → cut len rest ≡ wait → length rest < max_frame_bytes
unfolding cut
cut-IsShort len rest h = ground arith

front-IsShort : (b : Bytes) → front b ≡ wait → IsShort b
unfolding front
front-IsShort [] h = omega arith
front-IsShort (x ∷ []) h = omega arith
front-IsShort (x ∷ y ∷ []) h = omega arith
front-IsShort (x ∷ y ∷ z ∷ []) h = omega arith
front-IsShort (x ∷ y ∷ z ∷ w ∷ rest) h = omega (arith, cut-IsShort _ rest h)

module _ (text_of : Bytes → Chars) where
  -- A short buffer while it is open, and an acknowledgement for each URI.
  record IsBounded (c : Conn) : Type 0 where
    short : c.is_open ≡ true → IsShort c.buffer
    answered : c.acks ≡ length c.received

  drain-IsBounded :
      (n : ℕ) (c : Conn)
      → length c.buffer ≤ n
      → c.acks ≡ length c.received
      → IsBounded (drain text_of n c)
  unfolding drain
  drain-IsBounded zero c le a = record { short = λ _. omega arith; answered = a }
  drain-IsBounded (suc n) c le a =
      (elim (front c.buffer)
          as (λ f.
            front c.buffer ≡ f
            → IsBounded (elim f [
              | wait ↦ c
              | bad ↦ record c { is_open = false }
              | whole p r ↦ drain text_of n (deliver (text_of p) (record c { buffer = r }))
            ])) [
              | wait ↦ λ k. record { short = λ _. front-IsShort c.buffer k; answered = a }
              | bad ↦ λ k. record { short = λ o. absurd (ground (arith, o)); answered = a }
              | whole p r ↦ λ k.
                  let d = deliver (text_of p) (record c { buffer = r }) in
                  let kept : d.buffer ≡ r = unfold deliver in ground arith in
                  let acked : d.acks ≡ length d.received = unfold deliver in ground (arith, a) in
                  let shorter = front-shrinks c.buffer p r k in
                  drain-IsBounded n d (subst (λ b. length b ≤ n) (sym kept) (omega arith)) acked
            ])
        refl

  on_ready_read-IsBounded :
      (chunk : Bytes) (c : Conn) → IsBounded c → IsBounded (on_ready_read text_of chunk c)
  unfolding on_ready_read
  on_ready_read-IsBounded chunk c h =
      let bytes = c.buffer ++ chunk in
      if_elim IsBounded (not c.is_open) (λ _. h)
        λ _. drain-IsBounded (length bytes) (record c { buffer = bytes }) (omega arith) h.answered

  read_all-IsBounded :
      (chunks : List Bytes) (c : Conn) → IsBounded c → IsBounded (read_all text_of chunks c)
  unfolding read_all
  read_all-IsBounded [] c h = h
  read_all-IsBounded (chunk ∷ chunks) c h =
      read_all-IsBounded chunks (on_ready_read text_of chunk c) (on_ready_read-IsBounded chunk c h)

  -- Whatever bytes a connection delivers, and in whatever chunks: either it was aborted, or fewer than
  -- 65540 of them are kept once they are read; and as many acknowledgements are written as URIs are
  -- handed on.
  pub read_all-bounded :
      (chunks : List Bytes)
      → let q = read_all text_of chunks new_conn in
        ((q.is_open ≡ false) ⊎ (length q.buffer < 65540)) × (q.acks ≡ length q.received)
  read_all-bounded chunks =
      let q = read_all text_of chunks new_conn in
      let h =
        read_all-IsBounded chunks new_conn (record { short = λ _. omega arith; answered = refl }) in
      (
        elim (Bool-cases q.is_open) [ inl o ↦ inr (h.short o) | inr no_more ↦ inl no_more ],
        h.answered,
      )
