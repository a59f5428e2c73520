-- ===== src/Readiness/Contract/Mirror.antt =====
-- The contract files and their public mirrors.
use clavenar_charts.Base.{
  ℕ, suc, String, ◌<>◌, ◌↔◌, eq_refl, ◌≡◌, refl, sym, ap, ◌∙◌, Bool, true, false, Option, none,
  some, List, [], ◌∷◌, eq_iff, ◌==◌,
}
use clavenar_charts.Base.Lists.{length}
use clavenar_charts.Base.Result.{Result, ok, raise, readiness_error, >>=-eq-ok, ok-injective}
use clavenar_charts.Readiness.Endpoint.{require}
use clavenar_charts.Readiness.Contract.{
  SourceRoot, mirror_path, verify_mirrors, verify_source_mirror,
}

-- A `require` that passed.
pub require-ok :
    (condition : Bool) (message : String) {u : Unit {0}}
    → require condition message ≡ ok u
    → condition ≡ true
unfolding require
require-ok true message h = refl
require-ok false message h = cc

-- The mirror of each file has the file's content.
abbrev pub AllMirrored : SourceRoot → List (String × String) → Type 0
AllMirrored root [] = Unit
AllMirrored root ((file, content) ∷ files) =
    (root.file_at (mirror_path root file) ≡ some content) × AllMirrored root files

mirror_read :
    (o : Option String) (message : String) {text : String}
    → (elim o [ none ↦ raise (readiness_error message) | some t ↦ ok t ]) ≡ ok text
    → o ≡ some text
mirror_read none message h = cc
mirror_read (some t) message h = ap some (ok-injective h)

verify_mirrors_lem :
    (root : SourceRoot) (files : List (String × String)) {n : ℕ}
    → verify_mirrors root files ≡ ok n
    → (n ≡ length files) × AllMirrored root files
unfolding verify_mirrors
verify_mirrors_lem root [] h = (sym (ok-injective h), tt)
verify_mirrors_lem root ((file, content) ∷ files) h =
    let (text, hread, h1) =
      >>=-eq-ok
        (let r : Result String = elim (root.file_at (mirror_path root file)) [
          | none ↦
              raise (readiness_error ("missing public source mirror " <> mirror_path root file))
          | some t ↦ ok t
        ] in
          r)
        _ h in
    let (_, hreq, h2) =
      >>=-eq-ok (require (content == text) ("public mirror drift: " <> file)) _ h1 in
    let (rest, hrest, h3) = >>=-eq-ok (verify_mirrors root files) _ h2 in
    let (count, all) = verify_mirrors_lem root files hrest in
    let same : content ≡ text = (eq_iff content text).0 (require-ok _ _ hreq) in
    (sym (ok-injective h3) ∙ ap suc count, (mirror_read _ _ hread ∙ ap some (sym same), all))

verify_mirrors_complete :
    (root : SourceRoot) (files : List (String × String))
    → AllMirrored root files
    → verify_mirrors root files ≡ ok (length files)
unfolding verify_mirrors require
verify_mirrors_complete root [] h = refl
verify_mirrors_complete root ((file, content) ∷ files) (h, hs) =
    rw h (rw (eq_refl content) (rw (verify_mirrors_complete root files hs)))

-- With a source root, the check of the mirrors returns exactly if every contract file has a mirror
-- with its content, and then the number of the files.
pub verify_source_mirror_iff :
    (root : SourceRoot) (required : Bool) (files : List (String × String)) (n : ℕ)
    → (verify_source_mirror (some root) required files ≡ ok n)
      ↔ ((n ≡ length files) × AllMirrored root files)
unfolding verify_source_mirror
verify_source_mirror_iff root required files n =
    (verify_mirrors_lem root files, λ (e, h). verify_mirrors_complete root files h ∙ ap ok (sym e))
