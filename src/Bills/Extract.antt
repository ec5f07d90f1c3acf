-- ===== src/Bills/Extract.antt =====
-- logic/bills/extract (media.py, image.py) and service.py (_extract): an upload is told apart by its first
-- bytes, read by the way that fits, and corrected by its QR code. A text of bytes is a list of numbers. What
-- Pillow does is a parameter, and so are the two readings by a language model, the QR decoder and the split of
-- its payload. A reason stands for the message of an error.
pub mod Bounds
mod Tests
use erp_agent.Prelude.{
  ℕ, zero, suc, ◌*◌, max, String, Bool, true, false, ◌&&◌, ◌||◌, Option, none, some, List, [], ◌∷◌,
  ◌==◌, eqb, ltb, if◌then◌else◌, length, Dict, Result, ok, err, or_raise, raise_if, ◌>>=◌, ◌>>◌,
}
use erp_agent.Decimal.{Decimal}
use erp_agent.Bills.Models.{Bill}
use erp_agent.Bills.Qr.{QrWarning, AtQr, parse_fields, merge}

abbrev pub Bytes : Type 0
Bytes = List ℕ

pub data MediaType : Type 0 where
  pdf jpeg png webp gif : MediaType

pub data Unsupported : Type 0 where
  unknown_type file_too_large unreadable too_many_pixels image_too_large : Unsupported

pub data ExtractError : Type 0 where
  unsupported_media : Unsupported → ExtractError
  not_extractable : ExtractError
  ocr_unavailable : ExtractError

-- `data.startswith(prefix)`
unfoldable pub starts_with : Bytes → Bytes → Bool
starts_with [] content = true
starts_with (p ∷ ps) [] = false
starts_with (p ∷ ps) (d ∷ content) = eqb p d && starts_with ps content

-- `data[n:]`
unfoldable pub drop_bytes : ℕ → Bytes → Bytes
drop_bytes zero content = content
drop_bytes (suc n) [] = []
drop_bytes (suc n) (d ∷ content) = drop_bytes n content

unfoldable pub sniff : Bytes → Result ExtractError MediaType
unfolding starts_with drop_bytes
sniff content =
    if starts_with (37 ∷ 80 ∷ 68 ∷ 70 ∷ []) content
    then ok pdf
    else if starts_with (255 ∷ 216 ∷ 255 ∷ []) content
    then ok jpeg
    else if starts_with (137 ∷ 80 ∷ 78 ∷ 71 ∷ 13 ∷ 10 ∷ 26 ∷ 10 ∷ []) content
    then ok png
    else if starts_with (82 ∷ 73 ∷ 70 ∷ 70 ∷ []) content
        && starts_with (87 ∷ 69 ∷ 66 ∷ 80 ∷ []) (drop_bytes 8 content)
    then ok webp
    else if starts_with (71 ∷ 73 ∷ 70 ∷ 56 ∷ 55 ∷ 97 ∷ []) content
        || starts_with (71 ∷ 73 ∷ 70 ∷ 56 ∷ 57 ∷ 97 ∷ []) content
    then ok gif
    else err (unsupported_media unknown_type)

abbrev pub max_edge : ℕ
max_edge = 1568

abbrev pub max_b64_bytes : ℕ
max_b64_bytes = 5 * (1024 * 1024)

abbrev pub max_upload_bytes : ℕ
max_upload_bytes = 25 * (1024 * 1024)

abbrev pub max_pixels : ℕ
max_pixels = 50000000

-- What is used of Pillow; `none` where it raises. `scaled edge longer` is an edge times `max_edge / longer`,
-- rounded, in floating point.
pub record Imaging (Image : Type 0) : Type 0 where
  pub open_image : Bytes → Option Image
  pub width : Image → ℕ
  pub height : Image → ℕ
  pub load : Image → Option Image
  pub orientation : Image → Option ℕ
  pub exif_transpose : Image → Option Image
  pub scaled : ℕ → ℕ → ℕ
  pub resize : ℕ → ℕ → Image → Option Image
  pub save_jpeg : Image → Option Bytes
  pub b64encode : Bytes → Bytes

module _ {Image : Type 0} (imaging : Imaging Image) where
  abbrev pub longer_edge : Image → ℕ
  longer_edge img = max (imaging.width img) (imaging.height img)

  abbrev pub shrink : Image → Option Image
  shrink img =
      imaging.resize (max 1 (imaging.scaled (imaging.width img) (longer_edge img)))
        (max 1 (imaging.scaled (imaging.height img) (longer_edge img))) img

  -- The bytes that are sent, with their type: those of the upload unless the image was changed.
  unfoldable pub encode : Bool → Image → Bytes → MediaType → Result ExtractError (Bytes × MediaType)
  encode changed img content media_type =
      if changed
      then (do
        saved ← or_raise (imaging.save_jpeg img) (unsupported_media unreadable)
        ok (saved, jpeg))
      else ok (content, media_type)

  -- The end of `_decode_and_fit`, from the image turned upright. The scale of an image without an edge is a
  -- division by zero.
  unfoldable pub fit : Bytes → MediaType → ℕ → Image → Result ExtractError (MediaType × Bytes)
  unfolding encode
  fit content media_type tag img = do
    raise_if (eqb (longer_edge img) 0) (unsupported_media unreadable)
    let resized = ltb max_edge (longer_edge img)
    fitted ← or_raise (if resized then shrink img else some img) (unsupported_media unreadable)
    sent ← encode (ltb 1 tag || resized) fitted content media_type
    raise_if (ltb max_b64_bytes (length (imaging.b64encode sent.0)))
        (unsupported_media image_too_large)
    ok (sent.1, imaging.b64encode sent.0)

  -- Anything that Pillow raises becomes the error of an unreadable image in `prepare`.
  unfoldable pub decode_and_fit : Bytes → MediaType → Result ExtractError (MediaType × Bytes)
  unfolding fit
  decode_and_fit content media_type = do
    opened ← or_raise (imaging.open_image content) (unsupported_media unreadable)
    raise_if (ltb max_pixels (imaging.width opened * imaging.height opened))
        (unsupported_media too_many_pixels)
    loaded ← or_raise (imaging.load opened) (unsupported_media unreadable)
    tag ← or_raise (imaging.orientation loaded) (unsupported_media unreadable)
    upright ← or_raise (imaging.exif_transpose loaded) (unsupported_media unreadable)
    fit content media_type tag upright

  unfoldable pub prepare : Bytes → MediaType → Result ExtractError (MediaType × Bytes)
  unfolding decode_and_fit
  prepare content media_type =
      if ltb max_upload_bytes (length content)
      then err (unsupported_media file_too_large)
      else decode_and_fit content media_type

-- The readings of an upload: the OCR text of a PDF or the image, each as a bill; the payload of a QR code.
pub record Extractor : Type 0 where
  pub parse : Bytes → Result ExtractError Bill
  pub parse_image : MediaType → Bytes → Result ExtractError Bill
  pub decode : Bytes → Option String
  pub fields : String → Dict String
  pub read_decimal : String → Option Decimal
  pub read_date : String → Option ℕ

module _ {Image : Type 0} (imaging : Imaging Image) (extractor : Extractor) where
  unfoldable pub read_qr : Bytes → Option AtQr
  read_qr content = elim (extractor.decode content) [
    | none ↦ none
    | some payload ↦
        if payload == ""
        then none
        else parse_fields extractor.read_decimal extractor.read_date (extractor.fields payload)
  ]

  unfoldable pub read_image : Bytes → MediaType → Result ExtractError Bill
  read_image content media_type = do
    prepared ← prepare imaging content media_type
    extractor.parse_image prepared.0 prepared.1

  unfoldable pub read_bill : Bytes → MediaType → Result ExtractError Bill
  unfolding read_image
  read_bill content pdf = extractor.parse content
  read_bill content media_type = read_image content media_type

  unfoldable pub extract : Bytes → Result ExtractError (Bill × List QrWarning)
  unfolding sniff read_qr read_bill
  extract content = do
    media_type ← sniff content
    bill ← read_bill content media_type
    ok (elim (read_qr content) [ some qr ↦ merge bill qr | none ↦ (bill, []) ])
