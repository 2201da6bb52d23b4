-- ===== src/App/Frames/Delivery.antt =====
-- src/app/Application.cpp: what was framed arrives, however the stream is cut.
use shelf_remote.Prelude.{
  refl, sym, ap, subst, true, false, arith, zero, suc, [], Chars, length, ◌≢◌, List, ◌∷◌, ◌≤◌, ℕ,
  All, ◌++◌, ◌≡◌, if◌then◌else◌, not, ◌∙◌, is_empty, append_nil, append_assoc,
}
use shelf_remote.App.Frames.{
  wait, bad, whole, Bytes, deliver, read_all, on_ready_read, drain, Conn, front, new_conn,
}
use shelf_remote.App.Frames.Cutting.{
  IsSized, stream, whole-parts, front-append, front-bad, front-frame, front-shrinks,
}

module _ (text_of : Bytes → Chars) where
  -- The URIs handed on when the payloads come one by one, newest first: a blank one is passed over.
  pub handed : List Bytes → List Chars → List Chars
  handed [] uris = uris
  handed (p ∷ ps) uris = handed ps (if is_empty (text_of p) then uris else text_of p ∷ uris)

  -- The payloads `ps` have come to a connection but for `left`, which `rest` and the buffer hold.
  record HasRead (ps : List Bytes) (rest : Bytes) (old : List Chars) (q : Conn) : Type 0 where
    left : List Bytes
    sized : All IsSized left
    still_open : q.is_open ≡ true
    remains : q.buffer ++ rest ≡ stream left
    stuck : front q.buffer ≡ wait
    uris : handed left q.received ≡ handed ps old

  deliver-rest :
      (uri : Chars) (c : Conn)
      → ((deliver uri c).buffer ≡ c.buffer)
        × ((deliver uri c).is_open ≡ c.is_open)
        × ((deliver uri c).received ≡ (if is_empty uri then c.received else uri ∷ c.received))
  unfolding deliver
  deliver-rest uri c = ground arith

  wait_or_whole : (p r : Bytes) → wait ≢ whole p r
  wait_or_whole p r e = ground (arith, e)

  front-stream :
      (ps : List Bytes) (p r : Bytes)
      → All IsSized ps
      → front (stream ps) ≡ whole p r
      → (qs : List Bytes) × (ps ≡ p ∷ qs) × (r ≡ stream qs)
  unfolding stream
  front-stream [] p r h e = absurd (unfold front in ground arith)
  front-stream (q ∷ qs) p r h e =
      let parts = whole-parts _ _ _ _ (sym (front-frame q (stream qs) h.0) ∙ e) in
      (qs, ap (λ b. b ∷ qs) parts.0, sym parts.1)

  not_bad : (ps : List Bytes) → All IsSized ps → front (stream ps) ≢ bad
  unfolding stream
  not_bad [] h e = unfold front in ground arith
  not_bad (q ∷ qs) h e =
      let k : whole q (stream qs) ≡ bad = sym (front-frame q (stream qs) h.0) ∙ e in
      ground (arith, k)

  nil_waits : (b : Bytes) → length b ≤ 0 → front b ≡ wait
  nil_waits [] h = unfold front in refl
  nil_waits (x ∷ xs) h = absurd (omega arith)

  after_frame :
      (p : Bytes) (qs ps : List Bytes) (rest : Bytes) (c d q : Conn)
      → ps ≡ p ∷ qs
      → d.received ≡ (if is_empty (text_of p) then c.received else text_of p ∷ c.received)
      → HasRead qs rest d.received q
      → HasRead ps rest c.received q
  unfolding handed
  after_frame p qs ps rest c d q e r k = record {
    left = k.left;
    sized = k.sized;
    still_open = k.still_open;
    remains = k.remains;
    stuck = k.stuck;
    uris = k.uris ∙ ap (handed qs) r ∙ ap (λ l. handed l c.received) (sym e);
  }

  drain-HasRead :
      (n : ℕ) (ps : List Bytes) (rest : Bytes) (c : Conn)
      → c.is_open ≡ true
      → length c.buffer ≤ n
      → All IsSized ps
      → c.buffer ++ rest ≡ stream ps
      → HasRead ps rest c.received (drain text_of n c)
  unfolding drain
  drain-HasRead zero ps rest c o le h e = record {
    left = ps;
    sized = h;
    still_open = o;
    remains = e;
    stuck = nil_waits c.buffer (omega arith);
    uris = refl;
  }
  drain-HasRead (suc n) ps rest c o le h e =
      (elim (front c.buffer)
          as (λ f.
            front c.buffer ≡ f
            → HasRead ps rest c.received (elim f [
              | wait ↦ c
              | bad ↦ record c { is_open = false }
              | whole p r ↦ drain text_of n (deliver (text_of p) (record c { buffer = r }))
            ])) [
              | wait ↦ λ k. record {
                left = ps;
                sized = h;
                still_open = o;
                remains = e;
                stuck = k;
                uris = refl;
              }
              | bad ↦ λ k. absurd (not_bad ps h (ap front (sym e) ∙ front-bad c.buffer rest k))
              | whole p r ↦ λ k.
                  let rests =
                    front-stream ps p (r ++ rest) h
                      (ap front (sym e) ∙ front-append c.buffer rest p r k) in
                  let qs = rests.0 in
                  let d = deliver (text_of p) (record c { buffer = r }) in
                  let kept = deliver-rest (text_of p) (record c { buffer = r }) in
                  let shorter = front-shrinks c.buffer p r k in
                  let hq : All IsSized (p ∷ qs) = subst (All IsSized) rests.1 h in
                  let small : length d.buffer ≤ n =
                    subst (λ b. length b ≤ n) (sym kept.0) (omega arith) in
                  after_frame p qs ps rest c d (drain text_of n d) rests.1 kept.2 (
                    drain-HasRead n qs rest d (kept.1 ∙ o) small hq.1
                      (ap (λ b. b ++ rest) kept.0 ∙ rests.2))
            ])
        refl

  on_ready_read-HasRead :
      (chunk : Bytes) (ps : List Bytes) (rest : Bytes) (c : Conn)
      → c.is_open ≡ true
      → All IsSized ps
      → c.buffer ++ (chunk ++ rest) ≡ stream ps
      → HasRead ps rest c.received (on_ready_read text_of chunk c)
  unfolding on_ready_read
  on_ready_read-HasRead chunk ps rest c o h e =
      let bytes = c.buffer ++ chunk in
      subst
        (λ b.
          HasRead ps rest c.received
            (if not b then c else drain text_of (length bytes) (record c { buffer = bytes })))
        (sym o)
        (drain-HasRead (length bytes) ps rest (record c { buffer = bytes }) o (omega arith) h
          (append_assoc c.buffer chunk rest ∙ e))

  -- All the bytes of the chunks.
  unfoldable pub joined : List Bytes → Bytes
  joined [] = []
  joined (chunk ∷ chunks) = chunk ++ joined chunks

  read_all-HasRead :
      (chunks : List Bytes) (ps : List Bytes) (c : Conn)
      → c.is_open ≡ true
      → front c.buffer ≡ wait
      → All IsSized ps
      → c.buffer ++ joined chunks ≡ stream ps
      → HasRead ps [] c.received (read_all text_of chunks c)
  unfolding read_all joined
  read_all-HasRead [] ps c o w h e = record {
    left = ps;
    sized = h;
    still_open = o;
    remains = e;
    stuck = w;
    uris = refl;
  }
  read_all-HasRead (chunk ∷ chunks) ps c o w h e =
      let first = on_ready_read-HasRead chunk ps (joined chunks) c o h e in
      let q = on_ready_read text_of chunk c in
      let k =
        read_all-HasRead chunks first.left q first.still_open first.stuck first.sized
          first.remains in
      record {
        left = k.left;
        sized = k.sized;
        still_open = k.still_open;
        remains = k.remains;
        stuck = k.stuck;
        uris = k.uris ∙ first.uris;
      }

  nothing_left :
      (b : Bytes) (left : List Bytes)
      → All IsSized left
      → front b ≡ wait
      → b ≡ stream left
      → left ≡ []
  nothing_left b [] h w e = refl
  nothing_left b (p ∷ ps) h w e = absurd (
      wait_or_whole p (stream ps)
        (sym w ∙ ap front e ∙ unfold stream in front-frame p (stream ps) h.0))

  -- Payloads of 1 to 65536 bytes that are written as frames, in whatever chunks the stream delivers
  -- them, arrive as they were written: the connection stays open, every text that is not blank is handed
  -- on once and in order, and nothing is left in the buffer.
  pub read_all-handed :
      (chunks ps : List Bytes)
      → All IsSized ps
      → joined chunks ≡ stream ps
      → let q = read_all text_of chunks new_conn in
        (q.is_open ≡ true) × (q.buffer ≡ []) × (q.received ≡ handed ps [])
  read_all-handed chunks ps h e =
      let k = read_all-HasRead chunks ps new_conn refl (unfold front in refl) h e in
      let q = read_all text_of chunks new_conn in
      let all : q.buffer ≡ stream k.left = sym (append_nil q.buffer) ∙ k.remains in
      let none_left = nothing_left q.buffer k.left k.sized k.stuck all in
      (
        k.still_open,
        all ∙ ap stream none_left ∙ (unfold stream in refl),
        unfold handed in (ap (λ l. handed l q.received) (sym none_left) ∙ k.uris),
      )
