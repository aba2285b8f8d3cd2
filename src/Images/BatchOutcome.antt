-- ===== src/Images/BatchOutcome.antt =====
-- How a batch of uploads ends: the answer and the tables of init_images_upload_batch.
use phyllonix.Base.{
  or_raise, ℕ, suc, ◌≡◌, refl, ap, ◌∙◌, true, false, ◌&&◌, not, Option, none, some, List, [], ◌∷◌,
  if◌then◌else◌, find_where, Action, Result, Session, ok, err, crash, http, pure, raise_if,
  in_session, ◌>>=◌, arith, Bool-cases, inl, inr,
}
use phyllonix.Products.Admin.{CatalogueProduct, is_present, is_owner}
use phyllonix.Images.Batch.{
  InitImageItem, Problem, UploadsDb, Outside, Report, validate_file, fits_row, upload_opened,
  open_upload, with_item, with_error, init_image, init_images, init_images_upload_batch,
  committed_report,
}
use phyllonix.Images.Opened.{
  bind-ok, bind-err, Drawn, put_image, after, batch_answer, all_go_through, put_image-Drawn,
  open_upload-fits, open_upload-refused, init_image-none, init_image-some,
}

-- The loop over images that all go through.
Goes : Outside → ℕ → ℕ → List InitImageItem → Session UploadsDb → Type 0
Goes o now product_id imgs s = init_images o now product_id imgs s ≡ (
  ok (batch_answer o now s.work.next_id imgs),
  record s { work = after o product_id imgs s.work },
)

-- A run that raises, and commits nothing.
Stops : {A : Type 0} → Action UploadsDb A → Session UploadsDb → Type 0
Stops m s = ((m s).0 ≡ err crash) × ((m s).1.committed ≡ s.committed)

init_image-Goes :
    (o : Outside) (now product_id : ℕ) (img : InitImageItem) (imgs : List InitImageItem)
    (v : Option Problem) (s : Session UploadsDb)
    → Drawn s.work
    → elim v [ none ↦ fits_row img | some p ↦ o.constructs p ] ≡ true
    → ((t : Session UploadsDb) → Drawn t.work → Goes o now product_id imgs t)
    → init_image o now product_id img (init_images o now product_id imgs) v s ≡ (
      ok (elim v [
        | none ↦
            with_item
              (upload_opened o now img (o.uuid7 s.work.next_id))
              (batch_answer o now (suc s.work.next_id) imgs)
        | some p ↦
            with_error
              (record { filename = img.filename; detail = p })
              (batch_answer o now s.work.next_id imgs)
      ]),
      record s {
        work = elim v [
          | none ↦ after o product_id imgs (put_image o product_id img s.work)
          | some p ↦ after o product_id imgs s.work
        ];
      },
    )
unfolding Goes
init_image-Goes o now product_id img imgs none s h go rest =
    init_image-none o now product_id img (init_images o now product_id imgs) s _ _ h go (
      rest (record s { work = put_image o product_id img s.work })
        (put_image-Drawn o product_id img s.work h))
init_image-Goes o now product_id img imgs (some p) s h go rest =
    init_image-some o now product_id img (init_images o now product_id imgs) p s _ _ go (rest s h)

init_images-Goes :
    (o : Outside) (now product_id : ℕ) (imgs : List InitImageItem) (s : Session UploadsDb)
    → Drawn s.work
    → all_go_through o imgs ≡ true
    → Goes o now product_id imgs s
unfolding Goes
init_images-Goes o now product_id [] s h go = refl
init_images-Goes o now product_id (img ∷ imgs) s h go =
    init_image-Goes o now product_id img imgs (validate_file img) s h (ground arith)
      (λ t d. init_images-Goes o now product_id imgs t d (ground arith))

Stops->>= :
    {A B : Type 0} (m : Action UploadsDb A) (f : A → Action UploadsDb B) (s : Session UploadsDb)
    → Stops m s
    → Stops (m >>= f) s
unfolding Stops
Stops->>= m f s (e, c) =
    let raised = bind-err m f s (m s).1 crash (ap (λ r. (r, (m s).1)) e) in
    (ap (λ q. q.0) raised, ap (λ q. q.1.committed) raised ∙ c)

Stops-after :
    {A B : Type 0} (m : Action UploadsDb A) (f : A → Action UploadsDb B) (s t : Session UploadsDb)
    (a : A)
    → m s ≡ (ok a, t)
    → t.committed ≡ s.committed
    → Stops (f a) t
    → Stops (m >>= f) s
unfolding Stops
Stops-after m f s t a h same (e, c) =
    let run = bind-ok m f s t a h in
    (ap (λ q. q.0) run ∙ e, ap (λ q. q.1.committed) run ∙ (c ∙ same))

open_upload-Stops :
    (o : Outside) (now product_id : ℕ) (img : InitImageItem) (s : Session UploadsDb)
    → fits_row img ≡ false
    → Stops (open_upload o now product_id img) s
unfolding Stops
open_upload-Stops o now product_id img s fits =
    let refused = open_upload-refused o now product_id img s fits in
    (ap (λ q. q.0) refused, ap (λ q. q.1.committed) refused)

-- A turn that raises, or one that returns before a rest that does.
init_image-Stops :
    (o : Outside) (now product_id : ℕ) (img : InitImageItem) (imgs : List InitImageItem)
    (v : Option Problem) (s : Session UploadsDb)
    → Drawn s.work
    → elim v [ none ↦ fits_row img | some p ↦ o.constructs p ] && all_go_through o imgs ≡ false
    → ((t : Session UploadsDb)
        → Drawn t.work
        → all_go_through o imgs ≡ false
        → Stops (init_images o now product_id imgs) t)
    → Stops (init_image o now product_id img (init_images o now product_id imgs) v) s
unfolding Stops
init_image-Stops o now product_id img imgs none s h stop rest = elim (Bool-cases (fits_row img)) [
  | inl fits ↦
      Stops-after (open_upload o now product_id img)
        (λ i. init_images o now product_id imgs >>= λ q. pure (with_item i q)) s
        (record s { work = put_image o product_id img s.work })
        (upload_opened o now img (o.uuid7 s.work.next_id))
        (open_upload-fits o now product_id img s h fits) refl
        (Stops->>= (init_images o now product_id imgs)
          (λ q. pure (with_item (upload_opened o now img (o.uuid7 s.work.next_id)) q))
          (record s { work = put_image o product_id img s.work })
          (rest (record s { work = put_image o product_id img s.work })
            (put_image-Drawn o product_id img s.work h) (ground arith)))
  | inr refused ↦
      Stops->>= (open_upload o now product_id img)
        (λ i. init_images o now product_id imgs >>= λ q. pure (with_item i q)) s
        (open_upload-Stops o now product_id img s refused)
]
init_image-Stops o now product_id img imgs (some p) s h stop rest =
    elim (Bool-cases (o.constructs p)) [
      | inl built ↦ rw built (
          Stops->>= (init_images o now product_id imgs)
            (λ q. pure (with_error (record { filename = img.filename; detail = p }) q)) s
            (rest s h (ground arith)))
      | inr other ↦ rw other (refl, refl)
    ]

init_images-Stops :
    (o : Outside) (now product_id : ℕ) (imgs : List InitImageItem) (s : Session UploadsDb)
    → Drawn s.work
    → all_go_through o imgs ≡ false
    → Stops (init_images o now product_id imgs) s
init_images-Stops o now product_id [] s h stop = absurd (cc)
init_images-Stops o now product_id (img ∷ imgs) s h stop =
    init_image-Stops o now product_id img imgs (validate_file img) s h stop
      (λ t d b. init_images-Stops o now product_id imgs t d b)

-- What a batch answers and leaves in the tables, written without the session.
abbrev pub outcome :
    Outside
    → ℕ
    → ℕ
    → Option CatalogueProduct
    → List InitImageItem
    → UploadsDb
    → Result Report × UploadsDb
outcome o now user none imgs d = (err (http 404), d)
outcome o now user (some p) imgs d =
    if not (is_owner p.owner_id user)
    then (err (http 401), d)
    else if all_go_through o imgs
    then (ok (batch_answer o now d.next_id imgs), after o p.id imgs d)
    else (err crash, d)

owned_batch-outcome :
    (o : Outside) (now product_id : ℕ) (imgs : List InitImageItem) (d : UploadsDb)
    → Drawn d
    → in_session (init_images o now product_id imgs >>= committed_report) d ≡ (
        if all_go_through o imgs
        then (ok (batch_answer o now d.next_id imgs), after o product_id imgs d)
        else (err crash, d))
unfolding Goes Stops
owned_batch-outcome o now product_id imgs d h = elim (Bool-cases (all_go_through o imgs)) [
  | inl go ↦ rw go (
      ap (λ q. (q.0, q.1.committed))
        (bind-ok (init_images o now product_id imgs) committed_report
          (record { work = d; committed = d })
          (record { work = after o product_id imgs d; committed = d })
          (batch_answer o now d.next_id imgs)
          (init_images-Goes o now product_id imgs (record { work = d; committed = d }) h go)))
  | inr stop ↦
      let (e, c) =
        Stops->>= (init_images o now product_id imgs) committed_report
          (record { work = d; committed = d })
          (init_images-Stops o now product_id imgs (record { work = d; committed = d }) h stop) in
      rw stop (cc)
]

found_batch-outcome :
    (o : Outside) (now user : ℕ) (found : Option CatalogueProduct) (imgs : List InitImageItem)
    (d : UploadsDb)
    → Drawn d
    → in_session
        (or_raise found (http 404) >>= λ p.
          raise_if (not (is_owner p.owner_id user)) (http 401) >>= λ _.
          init_images o now p.id imgs >>= committed_report)
        d
      ≡ outcome o now user found imgs d
found_batch-outcome o now user none imgs d h = refl
found_batch-outcome o now user (some p) imgs d h = elim (Bool-cases (is_owner p.owner_id user)) [
  | inl owned ↦ rw owned (owned_batch-outcome o now p.id imgs d h)
  | inr other ↦ rw other refl
]

-- Where every image's id was drawn from the sequence: a batch of uploads answers 404 if no product
-- that is not deleted has the public id, 401 if the product is not the caller's, and is a server
-- error if a file that passes every test does not fit its row or the constructor of ValidationError
-- raises something else for one that does not pass; none of these changes a table. Otherwise it
-- stores one image with its storage key for each file that passes, in order, and answers with
-- their signed parameters and with the first failed test of each other file.
pub init_images_upload_batch_lem :
    (o : Outside) (now user pid : ℕ) (imgs : List InitImageItem) (d : UploadsDb)
    → Drawn d
    → in_session (init_images_upload_batch o now user pid imgs) d
      ≡ outcome o now user (find_where (is_present pid) d.products) imgs d
unfolding init_images_upload_batch
init_images_upload_batch_lem o now user pid imgs d h =
    found_batch-outcome o now user (find_where (is_present pid) d.products) imgs d h
