-- ===== src/Bills/Extract/Tests.antt =====
-- Uploads told apart, and a photo made smaller. An image is its two edges.
use erp_agent.Prelude.{ℕ, ◌*◌, ◌/◌, ◌≤◌, none, some, [], ◌∷◌, ◌++◌, length, ok, err, ◌≡◌, refl}
use erp_agent.Bills.Extract.{
  Bytes, pdf, jpeg, png, webp, gif, unsupported_media, unknown_type, not_extractable,
  too_many_pixels, Imaging, Extractor, starts_with, drop_bytes, sniff, encode, fit, decode_and_fit,
  prepare, read_qr, read_image, read_bill, extract, max_upload_bytes,
}
use erp_agent.Bills.Extract.Bounds.{IsPrepared, prepare-IsPrepared}

abbrev riff : Bytes
riff = 82 ∷ 73 ∷ 70 ∷ 70 ∷ 0 ∷ 0 ∷ 0 ∷ 0 ∷ []

abbrev png_head : Bytes
png_head = 137 ∷ 80 ∷ 78 ∷ 71 ∷ 13 ∷ 10 ∷ 26 ∷ 10 ∷ []

abbrev pdf_file : Bytes
pdf_file = 37 ∷ 80 ∷ 68 ∷ 70 ∷ 45 ∷ 49 ∷ []

sniff_pdf : sniff pdf_file ≡ ok pdf
unfolding sniff starts_with drop_bytes
sniff_pdf = refl

sniff_webp : sniff (riff ++ (87 ∷ 69 ∷ 66 ∷ 80 ∷ 0 ∷ [])) ≡ ok webp
unfolding sniff starts_with drop_bytes
sniff_webp = refl

sniff_avi : sniff (riff ++ (65 ∷ 86 ∷ 73 ∷ 32 ∷ [])) ≡ err (unsupported_media unknown_type)
unfolding sniff starts_with drop_bytes
sniff_avi = refl

sniff_gif : sniff (71 ∷ 73 ∷ 70 ∷ 56 ∷ 57 ∷ 97 ∷ 0 ∷ []) ≡ ok gif
unfolding sniff starts_with drop_bytes
sniff_gif = refl

abbrev imaging : ℕ → ℕ → ℕ → Imaging (ℕ × ℕ)
imaging w h tag = record {
  open_image = λ content. some (w, h);
  width = λ img. img.0;
  height = λ img. img.1;
  load = λ img. some img;
  orientation = λ img. some tag;
  exif_transpose = λ img. some img;
  scaled = λ edge longer. edge * 1568 / longer;
  resize = λ w' h' img. some (w', h');
  save_jpeg = λ img. some (img.0 ∷ img.1 ∷ []);
  b64encode = λ content. content;
}

-- A photo of 3136 to 2000 pixels is sent as a JPEG of half its edges.
prepare_photo : prepare (imaging 3136 2000 1) png_head png ≡ ok (jpeg, 1568 ∷ 1000 ∷ [])
unfolding prepare decode_and_fit fit encode
prepare_photo = refl

prepare_scan : prepare (imaging 800 600 1) png_head png ≡ ok (png, png_head)
unfolding prepare decode_and_fit fit encode
prepare_scan = refl

prepare_huge :
    prepare (imaging 12000 12000 1) png_head png ≡ err (unsupported_media too_many_pixels)
unfolding prepare decode_and_fit fit encode
prepare_huge = refl

prepare-IsPrepared_example :
    (length png_head ≤ max_upload_bytes)
    × IsPrepared (imaging 3136 2000 1) png_head png (jpeg, 1568 ∷ 1000 ∷ [])
prepare-IsPrepared_example =
    prepare-IsPrepared (imaging 3136 2000 1) png_head png (jpeg, 1568 ∷ 1000 ∷ []) prepare_photo

-- A PDF never goes through the images, and an image never through the OCR.
abbrev extractor : Extractor
extractor = record {
  parse = λ content. err not_extractable;
  parse_image = λ media_type content. err (unsupported_media unknown_type);
  decode = λ content. none;
  fields = λ payload. [];
  read_decimal = λ s. none;
  read_date = λ s. none;
}

extract_pdf : extract (imaging 800 600 1) extractor pdf_file ≡ err not_extractable
unfolding extract sniff starts_with drop_bytes read_bill read_image prepare decode_and_fit fit
    encode read_qr
extract_pdf = refl

extract_image :
    extract (imaging 800 600 1) extractor png_head ≡ err (unsupported_media unknown_type)
unfolding extract sniff starts_with drop_bytes read_bill read_image prepare decode_and_fit fit
    encode read_qr
extract_image = refl
