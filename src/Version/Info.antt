-- ===== src/Version/Info.antt =====
-- common/version/agcore_version.c: the bytes of the device information.
use agcore.Prelude.{
  ℕ, zero, suc, ◌+◌, ◌-◌, ◌%◌, ◌≤◌, ◌<◌, ◌≡◌, refl, ap, subst, sym, ◌∙◌, List, [], ◌∷◌, Option,
  some, true, false, length, get_or, set, drop, arith, if◌then◌else◌, ◌==◌, length-set,
  get_or-set_self, get_or-set_ne, not, ◌&&◌, ◌||◌, ltb, leb, eight_bytes, if_cases, Bool-cases, inl,
  inr, get_or-append_left, get_or-append_right, get_or-drop, length-drop, u8, ◌>>>◌,
}
use agcore.Utils.Bytes.{put_bytes16}
use agcore.Version.{DeviceInfo, DeviceState, fill_loop, put_info, device_info_get_bytes}

-- The value that stands for a missing byte.
abbrev pub filler : ℕ → ℕ
filler i = if i % 2 == 0 then 0x00 else 0xFF

pub length-fill_loop : (rounds i : ℕ) (buf : List ℕ) → length (fill_loop rounds i buf) ≡ length buf
unfolding fill_loop
length-fill_loop zero i buf = refl
length-fill_loop (suc n) i buf =
    length-fill_loop n (i + 1) (set buf i (filler i)) ∙ length-set buf i (filler i)

-- What the loop has left behind it stays.
fill_loop-behind :
    (rounds i j : ℕ) (buf : List ℕ) → j < i → get_or (fill_loop rounds i buf) j 0 ≡ get_or buf j 0
unfolding fill_loop
fill_loop-behind zero i j buf h = refl
fill_loop-behind (suc n) i j buf h =
    fill_loop-behind n (i + 1) j (set buf i (filler i)) (omega arith)
    ∙ get_or-set_ne buf i j (filler i) 0 (omega arith)

fill_loop-at :
    (rounds i j : ℕ) (buf : List ℕ)
    → i ≤ j
    → j < i + rounds
    → j < length buf
    → get_or (fill_loop rounds i buf) j 0 ≡ filler j
unfolding fill_loop
fill_loop-at zero i j buf h k l = absurd (omega arith)
fill_loop-at (suc n) i j buf h k l = elim (Bool-cases (i == j)) [
  | inl e ↦
      fill_loop-behind n (i + 1) j (set buf i (filler i)) (ground arith)
      ∙ subst (λ (x : ℕ). get_or (set buf i (filler i)) x 0 ≡ filler x) (ground arith)
          (get_or-set_self buf i (filler i) 0 (ground arith))
  | inr e ↦
      fill_loop-at n (i + 1) j (set buf i (filler i)) (ground arith) (omega arith)
        (omega (arith, length-set buf i (filler i)))
]

fill_loop-beyond :
    (rounds i j : ℕ) (buf : List ℕ)
    → i + rounds ≤ j
    → get_or (fill_loop rounds i buf) j 0 ≡ get_or buf j 0
unfolding fill_loop
fill_loop-beyond zero i j buf h = refl
fill_loop-beyond (suc n) i j buf h =
    fill_loop-beyond n (i + 1) j (set buf i (filler i)) (omega arith)
    ∙ get_or-set_ne buf i j (filler i) 0 (omega arith)

-- Eight bytes that stand for a device information.
abbrev pub info_bytes : DeviceInfo → List ℕ → List ℕ
info_bytes i rest =
    u8 (i.device_type >>> 8)
    ∷ u8 i.device_type
    ∷ u8 (i.device_id >>> 8)
    ∷ u8 i.device_id
    ∷ u8 (i.fw_version >>> 8)
    ∷ u8 i.fw_version
    ∷ u8 (i.hw_version >>> 8)
    ∷ u8 i.hw_version
    ∷ rest

put_info_lem :
    (i : DeviceInfo) (buf : List ℕ) → 8 ≤ length buf → put_info i buf ≡ info_bytes i (drop 8 buf)
unfolding put_info put_bytes16
put_info_lem i buf h =
    eight_bytes (λ (b : List ℕ). put_info i b ≡ info_bytes i (drop 8 b)) buf
      (λ a b c d e f g h rest. refl) h

get_or-info_bytes :
    (i : DeviceInfo) (buf : List ℕ) (j : ℕ)
    → get_or (info_bytes i (drop 8 buf)) j 0
      ≡ (if ltb j 8 then get_or (info_bytes i []) j 0 else get_or buf j 0)
get_or-info_bytes i buf j =
    if_cases (λ (x : ℕ). get_or (info_bytes i (drop 8 buf)) j 0 ≡ x) (ltb j 8) _ _
      (λ e. get_or-append_left j (info_bytes i []) (drop 8 buf) 0 (ground arith))
      (λ e.
        let k : j ≡ 8 + (j - 8) = ground arith in
        ap (λ (x : ℕ). get_or (info_bytes i (drop 8 buf)) x 0) k
        ∙ get_or-append_right (info_bytes i []) (drop 8 buf) (j - 8) 0
        ∙ get_or-drop 8 (j - 8) buf 0
        ∙ ap (λ (x : ℕ). get_or buf x 0) (sym k))

-- What is written over the first len bytes of a buffer, from the bytes that stood there.
abbrev pub IsFilled : DeviceState → List ℕ → ℕ → List ℕ → Type 0
IsFilled s buf len out =
    (length out ≡ length buf)
    × ((j : ℕ) → len ≤ j → get_or out j 0 ≡ get_or buf j 0)
    × ((j : ℕ)
        → j < len
        → get_or out j 0 ≡ (
            if s.is_set && leb 8 len && ltb j 8
            then get_or (info_bytes s.info []) j 0
            else filler j))

fill_loop-IsFilled :
    (s : DeviceState) (buf : List ℕ) (len : ℕ)
    → len ≤ length buf
    → (not s.is_set || ltb len 8) ≡ true
    → IsFilled s buf len (fill_loop len 0 buf)
fill_loop-IsFilled s buf len fits e = (
  length-fill_loop len 0 buf,
  λ j h. fill_loop-beyond len 0 j buf (omega arith),
  λ j h. fill_loop-at len 0 j buf (omega arith) (omega arith) (omega arith) ∙ ground arith,
)

put_info-IsFilled :
    (s : DeviceState) (buf : List ℕ) (len : ℕ)
    → len ≤ length buf
    → (not s.is_set || ltb len 8) ≡ false
    → IsFilled s buf len (put_info s.info (fill_loop len 0 buf))
put_info-IsFilled s buf len fits e =
    let filled = fill_loop len 0 buf in
    let size : length filled ≡ length buf = length-fill_loop len 0 buf in
    let big : 8 ≤ len = ground arith in
    rw (put_info_lem s.info filled (omega arith)) (
      omega (arith, length-drop 8 filled),
      λ j h.
          get_or-info_bytes s.info filled j
          ∙ ground (arith, fill_loop-beyond len 0 j buf (omega arith)),
      λ j h.
          get_or-info_bytes s.info filled j
          ∙ ground (arith, fill_loop-at len 0 j buf (omega arith) (omega arith) (omega arith)),
    )

-- The device information fills the first len bytes of a buffer that has them, and nothing behind: with
-- the four numbers, high bytes first, in the first eight where the information is set and len is at
-- least 8, and with 00 FF alternating everywhere else.
pub device_info_get_bytes_lem :
    (s : DeviceState) (buf : List ℕ) (len : ℕ)
    → len ≤ length buf
    → (out : List ℕ) × (device_info_get_bytes s (some buf) len ≡ some out) × IsFilled s buf len out
unfolding device_info_get_bytes
device_info_get_bytes_lem s buf len fits =
    if_cases (λ (o : Option (List ℕ)). (out : List ℕ) × (o ≡ some out) × IsFilled s buf len out) _ _
      _ (λ e. (fill_loop len 0 buf, refl, fill_loop-IsFilled s buf len fits e))
      (λ e. (put_info s.info (fill_loop len 0 buf), refl, put_info-IsFilled s buf len fits e))
