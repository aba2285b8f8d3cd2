-- ===== src/Images/Opened.antt =====
-- What a batch of uploads stores and answers.
use phyllonix.Base.{
  ℕ, suc, ◌<◌, ◌≡◌, refl, ap, ◌∙◌, Bool, true, false, ◌&&◌, none, some, List, [], ◌∷◌, ◌++◌,
  find_where, update_where, is_some, Action, Result, Session, Error, ok, err, crash, pure, ◌>>=◌,
  ◌>>◌, All, All-append, All-map, arith,
}
use phyllonix.Images.Batch.{
  InitImageItem, Problem, IntendedImage, UploadsDb, Outside, Report, validate_file, fits_row,
  storage_name, upload_opened, open_upload, with_item, with_error, has_image_id, keyed, intended,
  create_product_image_intent, update_prod_image_storage_key, init_image,
}

module _ {D A B : Type 0} (m : Action D A) (f : A → Action D B) (s t : Session D) where
  pub bind-ok : (a : A) → m s ≡ (ok a, t) → (m >>= f) s ≡ f a t
  bind-ok a h =
      ap
        (λ (q : Result A × Session D). elim q.0 as (λ _. Result B × Session D) [
          | ok x ↦ f x q.1
          | err e ↦ (err e, q.1)
        ])
        h

  pub bind-err : (e : Error) → m s ≡ (err e, t) → (m >>= f) s ≡ (err e, t)
  bind-err e h =
      ap
        (λ (q : Result A × Session D). elim q.0 as (λ _. Result B × Session D) [
          | ok x ↦ f x q.1
          | err e ↦ (err e, q.1)
        ])
        h

-- Every stored id was drawn from the sequence.
abbrev pub Drawn : UploadsDb → Type 0
Drawn d = All (λ (i : IntendedImage). i.id < d.next_id) d.images

abbrev pub stored : Outside → ℕ → ℕ → InitImageItem → IntendedImage
stored o product_id id img = keyed (storage_name o (o.uuid7 id)) (intended o id product_id img)

abbrev pub put_image : Outside → ℕ → InitImageItem → UploadsDb → UploadsDb
put_image o product_id img d = record d {
  images = d.images ++ stored o product_id d.next_id img ∷ [];
  next_id = suc d.next_id;
}

abbrev pub after : Outside → ℕ → List InitImageItem → UploadsDb → UploadsDb
after o product_id [] d = d
after o product_id (img ∷ imgs) d = elim (validate_file img) [
  | none ↦ after o product_id imgs (put_image o product_id img d)
  | some p ↦ after o product_id imgs d
]

abbrev pub batch_answer : Outside → ℕ → ℕ → List InitImageItem → Report
batch_answer o now next [] = record { items = []; errors = [] }
batch_answer o now next (img ∷ imgs) = elim (validate_file img) [
  | none ↦ with_item (upload_opened o now img (o.uuid7 next)) (batch_answer o now (suc next) imgs)
  | some p ↦
      with_error (record { filename = img.filename; detail = p }) (batch_answer o now next imgs)
]

abbrev pub goes_through : Outside → InitImageItem → Bool
goes_through o img = elim (validate_file img) [ none ↦ fits_row img | some p ↦ o.constructs p ]

abbrev pub all_go_through : Outside → List InitImageItem → Bool
all_go_through o [] = true
all_go_through o (img ∷ imgs) = goes_through o img && all_go_through o imgs

-- The row just appended is the one that its id updates.
update_where-last :
    (n : ℕ) (f : IntendedImage → IntendedImage) (y : IntendedImage) (xs : List IntendedImage)
    → All (λ (i : IntendedImage). i.id < n) xs
    → y.id ≡ n
    → update_where (has_image_id n) f (xs ++ y ∷ []) ≡ xs ++ f y ∷ []
update_where-last n f y [] h e = ground arith
update_where-last n f y (x ∷ xs) h e = ground (arith, update_where-last n f y xs h.1 e)

is_some-last :
    (n : ℕ) (y : IntendedImage) (xs : List IntendedImage)
    → y.id ≡ n
    → is_some (find_where (has_image_id n) (xs ++ y ∷ [])) ≡ true
is_some-last n y [] e = ground arith
is_some-last n y (x ∷ xs) e = ground (arith, is_some-last n y xs e)

pub put_image-Drawn :
    (o : Outside) (product_id : ℕ) (img : InitImageItem) (d : UploadsDb)
    → Drawn d
    → Drawn (put_image o product_id img d)
put_image-Drawn o product_id img d h =
    All-append (λ (i : IntendedImage). i.id < suc d.next_id) d.images _
      (All-map _ _ d.images (λ i lt. omega arith) h) (omega arith, tt)

-- The session after the insert.
abbrev pub inserted : Outside → ℕ → InitImageItem → Session UploadsDb → Session UploadsDb
inserted o product_id img s = record s {
  work = record s.work {
    images = s.work.images ++ intended o s.work.next_id product_id img ∷ [];
    next_id = suc s.work.next_id;
  };
}

create_product_image_intent-fits :
    (o : Outside) (product_id : ℕ) (img : InitImageItem) (s : Session UploadsDb)
    → fits_row img ≡ true
    → create_product_image_intent o img product_id s
      ≡ (ok (intended o s.work.next_id product_id img), inserted o product_id img s)
unfolding create_product_image_intent
create_product_image_intent-fits o product_id img s fits = rw fits refl

update_prod_image_storage_key-last :
    (o : Outside) (product_id : ℕ) (img : InitImageItem) (s : Session UploadsDb)
    → Drawn s.work
    → update_prod_image_storage_key s.work.next_id
        (storage_name o (o.uuid7 s.work.next_id))
        (inserted o product_id img s)
      ≡ (ok tt, record s { work = put_image o product_id img s.work })
unfolding update_prod_image_storage_key
update_prod_image_storage_key-last o product_id img s h =
    rw
      (
        update_where-last s.work.next_id (keyed (storage_name o (o.uuid7 s.work.next_id)))
            (intended o s.work.next_id product_id img) s.work.images h refl,
        is_some-last s.work.next_id (stored o product_id s.work.next_id img) s.work.images refl,
      )
      refl

pub open_upload-fits :
    (o : Outside) (now product_id : ℕ) (img : InitImageItem) (s : Session UploadsDb)
    → Drawn s.work
    → fits_row img ≡ true
    → open_upload o now product_id img s ≡ (
      ok (upload_opened o now img (o.uuid7 s.work.next_id)),
      record s { work = put_image o product_id img s.work },
    )
open_upload-fits o now product_id img s h fits =
    bind-ok (create_product_image_intent o img product_id)
      (λ i.
        update_prod_image_storage_key i.id (storage_name o i.public_id)
        >> pure (upload_opened o now img i.public_id))
      s (inserted o product_id img s) (intended o s.work.next_id product_id img)
      (create_product_image_intent-fits o product_id img s fits)
    ∙ bind-ok
        (update_prod_image_storage_key s.work.next_id (storage_name o (o.uuid7 s.work.next_id)))
        (λ _. pure (upload_opened o now img (o.uuid7 s.work.next_id))) (inserted o product_id img s)
        (record s { work = put_image o product_id img s.work }) tt
        (update_prod_image_storage_key-last o product_id img s h)

pub open_upload-refused :
    (o : Outside) (now product_id : ℕ) (img : InitImageItem) (s : Session UploadsDb)
    → fits_row img ≡ false
    → open_upload o now product_id img s ≡ (err crash, s)
unfolding create_product_image_intent update_prod_image_storage_key
open_upload-refused o now product_id img s fits = rw fits refl

-- One turn that opens an upload, and the rest.
pub init_image-none :
    (o : Outside) (now product_id : ℕ) (img : InitImageItem) (others : Action UploadsDb Report)
    (s t : Session UploadsDb) (r : Report)
    → Drawn s.work
    → fits_row img ≡ true
    → others (record s { work = put_image o product_id img s.work }) ≡ (ok r, t)
    → init_image o now product_id img others none s
      ≡ (ok (with_item (upload_opened o now img (o.uuid7 s.work.next_id)) r), t)
init_image-none o now product_id img others s t r h fits rest =
    bind-ok (open_upload o now product_id img) (λ i. others >>= λ q. pure (with_item i q)) s
      (record s { work = put_image o product_id img s.work })
      (upload_opened o now img (o.uuid7 s.work.next_id))
      (open_upload-fits o now product_id img s h fits)
    ∙ bind-ok others (λ q. pure (with_item (upload_opened o now img (o.uuid7 s.work.next_id)) q))
        (record s { work = put_image o product_id img s.work }) t r rest

pub init_image-some :
    (o : Outside) (now product_id : ℕ) (img : InitImageItem) (others : Action UploadsDb Report)
    (p : Problem) (s t : Session UploadsDb) (r : Report)
    → o.constructs p ≡ true
    → others s ≡ (ok r, t)
    → init_image o now product_id img others (some p) s
      ≡ (ok (with_error (record { filename = img.filename; detail = p }) r), t)
init_image-some o now product_id img others p s t r c rest = rw c (
    bind-ok others (λ q. pure (with_error (record { filename = img.filename; detail = p }) q)) s t r
      rest)
