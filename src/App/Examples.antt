-- ===== src/App/Examples.antt =====
-- Runs of the theorems on the frames.
use shelf_remote.App.Frames.Bounds.{read_all-bounded}
use shelf_remote.App.Frames.Cutting.{IsSized, stream}
use shelf_remote.App.Frames.Delivery.{handed, read_all-handed, joined}
use shelf_remote.App.Frames.{Bytes, read_all, new_conn, frame}
use shelf_remote.Prelude.{
  refl, true, arith, [], List, All, ◌∷◌, Chars, ◌≡◌, length, ◌<◌, false, ◌⊎◌,
}

-- Two payloads, cut within the header of the second; the text is the payload.
abbrev payloads : List Bytes
payloads = (104 ∷ 105 ∷ []) ∷ (120 ∷ []) ∷ []

abbrev cut_up : List Bytes
cut_up = (0 ∷ 0 ∷ 0 ∷ 2 ∷ 104 ∷ 105 ∷ 0 ∷ 0 ∷ []) ∷ (0 ∷ 1 ∷ 120 ∷ []) ∷ []

abbrev as_is : Bytes → Chars
as_is b = b

payloads-IsSized : All IsSized payloads
payloads-IsSized = ((omega arith, omega arith), ((omega arith, omega arith), tt))

read_all-handed_example :
    let q = read_all as_is cut_up new_conn in
    (q.is_open ≡ true) × (q.buffer ≡ []) × (q.received ≡ handed as_is payloads [])
read_all-handed_example =
    read_all-handed as_is cut_up payloads payloads-IsSized (unfold joined stream frame in refl)

read_all-bounded_example :
    let q = read_all as_is cut_up new_conn in
    ((q.is_open ≡ false) ⊎ (length q.buffer < 65540)) × (q.acks ≡ length q.received)
read_all-bounded_example = read_all-bounded as_is cut_up
