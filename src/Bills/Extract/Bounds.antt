-- ===== src/Bills/Extract/Bounds.antt =====
-- logic/bills/extract/image.py: what is sent of an image.
use mathlib.Core.Path.{subst}
use erp_agent.Prelude.{
  eqb, if◌then◌else◌, ℕ, ◌*◌, ◌≤◌, Bool, true, false, ◌||◌, some, ltb, length, Result, ok, err,
  raise_if, ◌>>◌, ◌≡◌, refl, ap, sym, ◌∙◌, ◌⊎◌, inl, inr, >>=-eq-ok, ok-injective, or_raise,
  or_raise-eq-ok, arith,
}
use erp_agent.Bills.Extract.{
  Bytes, MediaType, jpeg, ExtractError, Imaging, max_edge, max_b64_bytes, max_upload_bytes,
  max_pixels, longer_edge, shrink, fit, encode, decode_and_fit, prepare,
}

-- A guard that was passed, and what comes after it.
raise_if-eq-ok :
    {A : Type 0} (b : Bool) (e : ExtractError) (next : Result ExtractError A) {a : A}
    → (raise_if b e >> next) ≡ ok a
    → (b ≡ false) × (next ≡ ok a)
raise_if-eq-ok false e next h = (refl, h)
raise_if-eq-ok true e next h = cc

if-eq-ok :
    {A : Type 0} (b : Bool) (e : ExtractError) (next : Result ExtractError A) {a : A}
    → (if b then err e else next) ≡ ok a
    → (b ≡ false) × (next ≡ ok a)
if-eq-ok false e next h = (refl, h)
if-eq-ok true e next h = cc

ltb-eq-false : (a b : ℕ) → ltb a b ≡ false → b ≤ a
ltb-eq-false a b h = ground arith

encode-outcome :
    {Image : Type 0} (imaging : Imaging Image) (changed : Bool) (img : Image) (content : Bytes)
    (media_type : MediaType) {sent : Bytes × MediaType}
    → encode imaging changed img content media_type ≡ ok sent
    → ((changed ≡ false) × (sent.0 ≡ content) × (sent.1 ≡ media_type))
      ⊎ ((imaging.save_jpeg img ≡ some (sent.0)) × (sent.1 ≡ jpeg))
unfolding encode
encode-outcome imaging false img content media_type h =
    inl (refl, ap (λ p. p.0) (sym (ok-injective h)), ap (λ p. p.1) (sym (ok-injective h)))
encode-outcome imaging true img content media_type h =
    let (saved, first, h1) = >>=-eq-ok (or_raise (imaging.save_jpeg img) _) _ h in
    inr (
      or_raise-eq-ok (imaging.save_jpeg img) _ _ first ∙ ap (λ p. some (p.0)) (ok-injective h1),
      ap (λ p. p.1) (sym (ok-injective h1)),
    )

module _ {Image : Type 0} (imaging : Imaging Image) where
  -- What Pillow made of an upload that was read: the image as its header tells it, loaded, and turned upright.
  pub record IsRead (content : Bytes) (opened loaded upright : Image) (tag : ℕ) : Type 0 where
    pub opens : imaging.open_image content ≡ some opened
    pub loads : imaging.load opened ≡ some loaded
    pub tagged : imaging.orientation loaded ≡ some tag
    pub turns : imaging.exif_transpose loaded ≡ some upright

  -- What is sent is the upload, where it is upright and small, or an image saved as a JPEG.
  unfoldable pub IsFitted : Bytes → MediaType → ℕ → Image → Bytes → MediaType → Type 0
  IsFitted content media_type tag upright sent sent_type =
      ((tag ≤ 1)
        × (longer_edge imaging upright ≤ max_edge)
        × (sent ≡ content)
        × (sent_type ≡ media_type))
      ⊎ ((img : Image) × (imaging.save_jpeg img ≡ some sent) × (sent_type ≡ jpeg))

  pub record IsSent (content : Bytes) (media_type : MediaType) (tag : ℕ) (upright : Image)
      (result : MediaType × Bytes) : Type 0 where
    pub sent : Bytes
    pub encoded : result.1 ≡ imaging.b64encode sent
    pub short : length (result.1) ≤ max_b64_bytes
    pub fitted : IsFitted content media_type tag upright sent (result.0)

  pub record IsPrepared (content : Bytes) (media_type : MediaType) (result : MediaType × Bytes)
      : Type 0 where
    pub opened : Image
    pub loaded : Image
    pub upright : Image
    pub tag : ℕ
    pub read : IsRead content opened loaded upright tag
    pub few_pixels : imaging.width opened * imaging.height opened ≤ max_pixels
    pub is_sent : IsSent content media_type tag upright result

  upright_small :
      (tag edge : ℕ) → (ltb 1 tag || ltb max_edge edge) ≡ false → (tag ≤ 1) × (edge ≤ max_edge)
  upright_small tag edge h = (ground arith, ground arith)

  fitted_as :
      (content : Bytes) (media_type : MediaType) (tag : ℕ) (upright img : Image)
      (sent : Bytes × MediaType)
      → (((ltb 1 tag || ltb max_edge (longer_edge imaging upright)) ≡ false)
          × (sent.0 ≡ content)
          × (sent.1 ≡ media_type))
        ⊎ ((imaging.save_jpeg img ≡ some (sent.0)) × (sent.1 ≡ jpeg))
      → IsFitted content media_type tag upright (sent.0) (sent.1)
  unfolding IsFitted
  fitted_as content media_type tag upright img sent (inl (small, same, type)) =
      let (turned, fits) = upright_small tag (longer_edge imaging upright) small in
      inl (turned, fits, same, type)
  fitted_as content media_type tag upright img sent (inr (saved, as_jpeg)) =
      inr (img, saved, as_jpeg)

  fit-IsSent :
      (content : Bytes) (media_type : MediaType) (tag : ℕ) (upright : Image)
      (result : MediaType × Bytes)
      → fit imaging content media_type tag upright ≡ ok result
      → IsSent content media_type tag upright result
  unfolding fit
  fit-IsSent content media_type tag upright result h =
      let resized = ltb max_edge (longer_edge imaging upright) in
      let (has_edge, h1) = raise_if-eq-ok (eqb (longer_edge imaging upright) 0) _ _ h in
      let (img, e2, h2) =
        >>=-eq-ok (or_raise (if resized then shrink imaging upright else some upright) _) _ h1 in
      let (sent, e3, h3) =
        >>=-eq-ok (encode imaging (ltb 1 tag || resized) img content media_type) _ h2 in
      let (short, h4) =
        raise_if-eq-ok (ltb max_b64_bytes (length (imaging.b64encode (sent.0)))) _ _ h3 in
      record {
        sent = sent.0;
        encoded = ap (λ p. p.1) (sym (ok-injective h4));
        short =
            subst (λ r. length (r.1) ≤ max_b64_bytes) (ok-injective h4) (ltb-eq-false _ _ short);
        fitted =
            subst (λ r. IsFitted content media_type tag upright (sent.0) (r.0)) (ok-injective h4)
              (fitted_as content media_type tag upright img sent
                (encode-outcome imaging (ltb 1 tag || resized) img content media_type e3));
      }

  decode_and_fit-IsPrepared :
      (content : Bytes) (media_type : MediaType) (result : MediaType × Bytes)
      → decode_and_fit imaging content media_type ≡ ok result
      → IsPrepared content media_type result
  unfolding decode_and_fit
  decode_and_fit-IsPrepared content media_type result h =
      let (opened, e1, h1) = >>=-eq-ok (or_raise (imaging.open_image content) _) _ h in
      let (small, h2) =
        raise_if-eq-ok (ltb max_pixels (imaging.width opened * imaging.height opened)) _ _ h1 in
      let (loaded, e3, h3) = >>=-eq-ok (or_raise (imaging.load opened) _) _ h2 in
      let (tag, e4, h4) = >>=-eq-ok (or_raise (imaging.orientation loaded) _) _ h3 in
      let (upright, e5, h5) = >>=-eq-ok (or_raise (imaging.exif_transpose loaded) _) _ h4 in
      record {
        opened = opened;
        loaded = loaded;
        upright = upright;
        tag = tag;
        read = record {
          opens = or_raise-eq-ok (imaging.open_image content) _ opened e1;
          loads = or_raise-eq-ok (imaging.load opened) _ loaded e3;
          tagged = or_raise-eq-ok (imaging.orientation loaded) _ tag e4;
          turns = or_raise-eq-ok (imaging.exif_transpose loaded) _ upright e5;
        };
        few_pixels = ltb-eq-false _ _ small;
        is_sent = fit-IsSent content media_type tag upright result h5;
      }

  -- What `prepare` returns for an upload: the upload is of at most 25 MiB, its header tells of an image of at
  -- most 50 million pixels, and what is sent is at most 5 MiB in base64. Either it is the upload itself, with
  -- its type, and then the image is upright and no edge of it is longer than 1568 pixels, or it is an image
  -- that was saved as a JPEG.
  pub prepare-IsPrepared :
      (content : Bytes) (media_type : MediaType) (result : MediaType × Bytes)
      → prepare imaging content media_type ≡ ok result
      → (length content ≤ max_upload_bytes) × IsPrepared content media_type result
  unfolding prepare
  prepare-IsPrepared content media_type result h =
      let (small, h1) = if-eq-ok (ltb max_upload_bytes (length content)) _ _ h in
      (ltb-eq-false _ _ small, decode_and_fit-IsPrepared content media_type result h1)
