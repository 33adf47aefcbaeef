-- ===== src/Decoder/Sound.antt =====
-- What the bytes look like where `Decode` returns a packet, and where it panics.
use gb32960_go_sdk.Base.{
  ℕ, zero, suc, ◌≡◌, refl, sym, ap, ◌∙◌, Bool, true, inl, inr, List, [], ◌∷◌, ◌++◌, Option, none,
  some, length, take, drop, ltb, Result, ok, err, panic, stuck, arith, append_assoc, append-nil,
  take-append-drop, Bool-cases, length-take,
}
use gb32960_go_sdk.Constant.{header_size, start_marker1, start_marker2}
use gb32960_go_sdk.Packet.{Packet}
use gb32960_go_sdk.Decoder.{Decoder, decode, header_length, packet_of, verify_bcc}
use gb32960_go_sdk.Decoder.Stream.{
  unread, IsValid, StreamStep, emits, retries, crashes, check_stream, read_stream, stream_step,
  stream_decode,
}
use gb32960_go_sdk.Decoder.Buffer.{marker_from_shift}
use gb32960_go_sdk.Decoder.Refines.{view_result, decode-stream_decode}

-- A header of 24 bytes that begins with the marker and declares the length of the data behind it.
pub record Heads (header body : List ℕ) : Type 0 where
  pub header_length_eq : length header ≡ header_size
  pub starts : (r : List ℕ) × (header ≡ start_marker1 ∷ start_marker2 ∷ r)
  pub declares : header_length header ≡ length body

-- The bytes hold a frame with its checksum, and `rest` is what stands behind it.
pub record Holds (include_start : Bool) (u rest : List ℕ) (p : Packet) : Type 0 where
  pub front : List ℕ
  pub header : List ℕ
  pub bcc : ℕ
  pub split : u ≡ front ++ (header ++ (p.payload ++ (bcc ∷ rest)))
  pub heads : Heads header p.payload
  pub read : p ≡ packet_of header p.payload
  pub checked : verify_bcc include_start header p.payload bcc ≡ true

-- The bytes end with a frame that lacks its last byte, the checksum.
pub record Lacks (u : List ℕ) : Type 0 where
  pub front : List ℕ
  pub header : List ℕ
  pub body : List ℕ
  pub split : u ≡ front ++ (header ++ body)
  pub heads : Heads header body

abbrev IsSuffix : List ℕ → List ℕ → Type 0
IsSuffix w u = (front : List ℕ) × (u ≡ front ++ w)

Holds-suffix :
    {include_start : Bool} {u w rest : List ℕ} {p : Packet}
    → IsSuffix w u
    → Holds include_start w rest p
    → Holds include_start u rest p
Holds-suffix {u} (front, e) h = record {
  front = front ++ h.front;
  header = h.header;
  bcc = h.bcc;
  split = e ∙ ap (◌++◌ front) h.split ∙ sym (append_assoc front h.front _);
  heads = h.heads;
  read = h.read;
  checked = h.checked;
}

Lacks-suffix : {u w : List ℕ} → IsSuffix w u → Lacks w → Lacks u
Lacks-suffix (front, e) h = record {
  front = front ++ h.front;
  header = h.header;
  body = h.body;
  split = e ∙ ap (◌++◌ front) h.split ∙ sym (append_assoc front h.front _);
  heads = h.heads;
}

suffix-drop : (k : ℕ) (u : List ℕ) → IsSuffix (drop k u) u
suffix-drop k u = (take k u, sym (take-append-drop k u))

abbrev StepSound : Bool → List ℕ → StreamStep → Type 0
StepSound m u (emits none rest) = IsSuffix rest u
StepSound m u (emits (some p) rest) = Holds m u rest p
StepSound m u (retries w) = IsSuffix w u
StepSound m u crashes = Lacks u

StepSound-suffix :
    (m : Bool) (u w : List ℕ) (s : StreamStep) → IsSuffix w u → StepSound m w s → StepSound m u s
StepSound-suffix m u w (emits none rest) (f, e) (g, e') =
    (f ++ g, e ∙ ap (◌++◌ f) e' ∙ sym (append_assoc f g rest))
StepSound-suffix m u w (emits (some p) rest) s h = Holds-suffix s h
StepSound-suffix m u w (retries v) (f, e) (g, e') =
    (f ++ g, e ∙ ap (◌++◌ f) e' ∙ sym (append_assoc f g v))
StepSound-suffix m u w crashes s h = Lacks-suffix s h

check_stream-StepSound :
    (m : Bool) (w header body tail : List ℕ)
    → w ≡ header ++ (body ++ tail)
    → Heads header body
    → StepSound m w (check_stream m w header body tail)
unfolding check_stream
check_stream-StepSound m w header body [] e h = record {
  front = [];
  header = header;
  body = body;
  split = e ∙ ap (◌++◌ header) (append-nil body);
  heads = h;
}
check_stream-StepSound m w header body (bcc ∷ rest) e h =
    elim (Bool-cases (verify_bcc m header body bcc)) [
      | inl pass ↦ rw pass (record {
        front = [];
        header = header;
        bcc = bcc;
        split = e;
        heads = h;
        read = refl;
        checked = pass;
      })
      | inr fail ↦ rw fail (suffix-drop 2 w)
    ]

read_stream-StepSound :
    (m : Bool) (w r : List ℕ)
    → w ≡ start_marker1 ∷ start_marker2 ∷ r
    → StepSound m w (read_stream m w)
unfolding read_stream
read_stream-StepSound m w r e =
    let header = take header_size w in
    let after = drop header_size w in
    let n = header_length header in
    elim (Bool-cases (ltb (length w) header_size)) [
      | inl short ↦ rw short ([], refl)
      | inr long ↦ elim (Bool-cases (ltb (length after) n)) [
        | inl short ↦ rw (long, short) ([], refl)
        | inr enough ↦
            rw (long, enough)
              (check_stream-StepSound m w header (take n after) (drop n after)
                (sym (take-append-drop header_size w)
                  ∙ ap (◌++◌ header) (sym (take-append-drop n after)))
                (record {
                  header_length_eq = ground (arith, length-take header_size w);
                  starts = (take 22 r, ap (take header_size) e);
                  declares = ground (arith, length-take n after);
                }))
      ]
    ]

stream_step-StepSound : (m : Bool) (u : List ℕ) → StepSound m u (stream_step m u)
unfolding stream_step
stream_step-StepSound m u = elim (marker_from_shift u 0) [
  | inl (e, _) ↦ rw (e, stream_step) (u, sym (append-nil u))
  | inr (k, r, _, e, f) ↦
      rw (e, stream_step)
        (StepSound-suffix m u (drop k u) _ (suffix-drop k u)
          (read_stream-StepSound m (drop k u) r f))
]

abbrev Sound : Bool → List ℕ → Result (Option Packet × List ℕ) → Type 0
Sound m u (ok (none, rest)) = IsSuffix rest u
Sound m u (ok (some p, rest)) = Holds m u rest p
Sound m u (err e) = Unit {0}
Sound m u panic = Lacks u
Sound m u stuck = Unit {0}

Sound-suffix :
    (m : Bool) (u w : List ℕ) (r : Result (Option Packet × List ℕ))
    → IsSuffix w u
    → Sound m w r
    → Sound m u r
Sound-suffix m u w (ok (none, rest)) s h = StepSound-suffix m u w (emits none rest) s h
Sound-suffix m u w (ok (some p, rest)) s h = Holds-suffix s h
Sound-suffix m u w (err e) s h = h
Sound-suffix m u w panic s h = Lacks-suffix s h
Sound-suffix m u w stuck s h = h

stream_decode-Sound_step :
    (fuel : ℕ) (m : Bool) (u : List ℕ) (s : StreamStep)
    → ((w : List ℕ) → Sound m w (stream_decode fuel m w))
    → stream_step m u ≡ s
    → StepSound m u s
    → Sound m u (stream_decode (suc fuel) m u)
unfolding stream_decode
stream_decode-Sound_step fuel m u (emits none rest) ih e h = rw (e, stream_decode) h
stream_decode-Sound_step fuel m u (emits (some p) rest) ih e h = rw (e, stream_decode) h
stream_decode-Sound_step fuel m u (retries w) ih e h =
    rw (e, stream_decode) (Sound-suffix m u w _ h (ih w))
stream_decode-Sound_step fuel m u crashes ih e h = rw (e, stream_decode) h

stream_decode-Sound : (fuel : ℕ) (m : Bool) (u : List ℕ) → Sound m u (stream_decode fuel m u)
stream_decode-Sound zero m u = unfold stream_decode in tt
stream_decode-Sound (suc fuel) m u =
    stream_decode-Sound_step fuel m u (stream_step m u) (stream_decode-Sound fuel m) refl
      (stream_step-StepSound m u)

decode-Sound :
    (d : Decoder) → IsValid d → Sound d.bcc_include_start (unread d) (view_result (decode d))
decode-Sound d v =
    rw (decode-stream_decode d v)
      (stream_decode-Sound (suc (length (unread d))) d.bcc_include_start (unread d))

-- Where `decode` returns a packet, the unread bytes hold a frame: a header of 24 bytes that begins
-- with the marker 0x23 0x23, the data, of the length that the header declares, and a checksum byte
-- that `verify_bcc` accepts. The packet's fields are read from that header and those data, and what
-- stands behind the checksum is left unread.
pub decode-Holds :
    (d d' : Decoder) (p : Packet)
    → IsValid d
    → decode d ≡ ok (some p, d')
    → Holds d.bcc_include_start (unread d) (unread d') p
decode-Holds d d' p v e = rw e at (decode-Sound d v)

-- Where `decode` panics, the unread bytes end with a frame that is complete but for its last byte,
-- the checksum.
pub decode-Lacks : (d : Decoder) → IsValid d → decode d ≡ panic → Lacks (unread d)
decode-Lacks d v e = rw e at (decode-Sound d v)
