-- ===== src/Matrix/Portal/Permanent.antt =====
-- Finished uploads and encrypted operations never change (src/matrix/portal-store.ts).
use threema_beeper.Prelude.{
  String, false, List, [], ◌∷◌, none, some, str_eq, eq_iff, select_one, select_one-Mem,
  select_one-update_row, select_one-append_some, ◌≡◌, refl, ap, sym, subst, ◌∙◌, inl, inr,
  Option-cases, Bool-cases, arith,
}
use threema_beeper.Matrix.Portal.Tables.{Store, UploadRow}
use threema_beeper.Matrix.Portal.Uploads
use threema_beeper.Matrix.Portal.Uploads.{media_upload, is_observed, allows}
use threema_beeper.Matrix.Portal.Frames.{uploads-call}
use threema_beeper.Matrix.Portal.History.{
  Call, call, after, run, prepare_media_upload, replace_media_upload, complete_media_upload,
}

-- The steps of the calls that write to `uploads`, for a finished row.
module _ (s : Store) (id : String) (u : UploadRow) (r : String) (found : media_upload s id ≡ some u)
    (finished : u.result ≡ some r) where
  prepare-upload :
      (i fingerprint prepared : String)
      → media_upload (after s (Uploads.prepare_media_upload s i fingerprint prepared)) id ≡ some u
  unfolding media_upload Uploads.prepare_media_upload
  prepare-upload i fingerprint prepared =
      elim (Option-cases (select_one (λ (v : UploadRow). str_eq v.id i) s.uploads)) [
        | inl fresh ↦
            let new : UploadRow = record {
              id = i;
              fingerprint = fingerprint;
              prepared = prepared;
              result = none;
            } in
            let kept =
              select_one-append_some (λ (v : UploadRow). str_eq v.id id) s.uploads (new ∷ [])
                found in
            ground (arith, fresh, kept)
        | inr (old, e) ↦ ground (arith, found, e)
      ]

  replace-upload :
      (i fingerprint previous prepared : String)
      → media_upload (after s (Uploads.replace_media_upload s i fingerprint previous prepared)) id
        ≡ some u
  unfolding media_upload Uploads.replace_media_upload
  replace-upload i fingerprint previous prepared =
      let same =
        select_one-update_row (λ (v : UploadRow). str_eq v.id id)
          (is_observed i fingerprint previous) (λ v. record v { prepared = prepared }) s.uploads
          {x = u} (λ v. refl) found in
      let untouched : is_observed i fingerprint previous u ≡ false = ground (arith, finished) in
      ground (arith, same, untouched, found)

  complete-upload :
      (i result : String)
      → media_upload (after s (Uploads.complete_media_upload s i result)) id ≡ some u
  unfolding media_upload Uploads.complete_media_upload
  complete-upload i result =
      let same =
        select_one-update_row (λ (v : UploadRow). str_eq v.id id) (λ (v : UploadRow). str_eq v.id i)
          (λ v. record v { result = some result }) s.uploads {x = u} (λ v. refl) found in
      let is_it = (select_one-Mem (λ (v : UploadRow). str_eq v.id id) s.uploads found).1 in
      elim (Bool-cases (str_eq u.id i)) [
        | inr miss ↦ ground (arith, same, found, miss)
        | inl hit ↦
            let e : id ≡ i = sym ((eq_iff u.id id).0 is_it) ∙ (eq_iff u.id i).0 hit in
            let found' : select_one (λ (v : UploadRow). str_eq v.id i) s.uploads ≡ some u =
              subst (λ j. select_one (λ (v : UploadRow). str_eq v.id j) s.uploads ≡ some u) e
                found in
            ground (arith, same, found, found', hit, eq_iff r result, finished)
      ]

call-upload :
    (c : Call) (s : Store) (id : String) (u : UploadRow) (r : String)
    → media_upload s id ≡ some u
    → u.result ≡ some r
    → media_upload (after s (call c s)) id ≡ some u
unfolding media_upload call
call-upload (prepare_media_upload i fingerprint prepared) s id u r found finished =
    prepare-upload s id u r found finished i fingerprint prepared
call-upload (replace_media_upload i fingerprint previous prepared) s id u r found finished =
    replace-upload s id u r found finished i fingerprint previous prepared
call-upload (complete_media_upload i result) s id u r found finished =
    complete-upload s id u r found finished i result
call-upload c s id u r found finished =
    ap (λ rows. select_one (λ (u : UploadRow). str_eq u.id id) rows) (uploads-call c s refl) ∙ found

-- A finished upload keeps its fingerprint, its prepared data and its result, whatever calls follow.
pub upload_is_permanent :
    (calls : List Call) (s : Store) (id : String) (u : UploadRow) (r : String)
    → media_upload s id ≡ some u
    → u.result ≡ some r
    → media_upload (run calls s) id ≡ some u
unfolding run
upload_is_permanent [] s id u r found finished = found
upload_is_permanent (c ∷ calls) s id u r found finished =
    upload_is_permanent calls (after s (call c s)) id u r (call-upload c s id u r found finished)
      finished
