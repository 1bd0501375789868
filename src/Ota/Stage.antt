-- ===== src/Ota/Stage.antt =====
-- The staging of an update replaces the staged file whole or not at all.
use okmx8mm.Base.{ℕ, zero, suc, ◌+◌, ◌≡◌, ◌≢◌, refl, sym, ap, ◌∙◌, arith, List, [], ◌∷◌, ◌++◌}
use okmx8mm.Base.{Bool, true, false, Bool-cases, Option, some, length, inl, inr}
use okmx8mm.Base.{append_assoc, append-nil, length-append, codes, leb, ◌/=◌, ◌==◌, ◌||◌}
use okmx8mm.Config.{same}
use okmx8mm.Files.{Files, Source, joined, IsDisk, Replaced, renamed-Replaced}
use okmx8mm.Ota.{temporary_of, make_temporary_path, copy_loop, source_code, staged_code, commit}
use okmx8mm.Ota.{copy_package, stage_to, stage_package}

pub temporary-ne : (path : List ℕ) → path ≢ temporary_of path
temporary-ne path e =
    let e' : length path ≡ length path + 4 = ap length e ∙ length-append path (codes ".tmp") in
    absurd (omega (arith, e'))

source_code-zero :
    (source : Source) (left : List (List ℕ)) (code : ℕ)
    → source_code source left code ≡ 0
    → (source.has_failed left ≡ false) × (code ≡ 0)
unfolding source_code
source_code-zero source left code h = ground (arith, h)

staged_code-zero :
    (closed : Bool) (code : ℕ) → staged_code closed code ≡ 0 → (closed ≡ true) × (code ≡ 0)
unfolding staged_code
staged_code-zero closed code h = ground (arith, h)

module _ {D : Type 0} (files : Files D) (content : List ℕ → D → Option (List ℕ))
    (disk : IsDisk files content) where
  copy_loop-others :
      (temporary other : List ℕ) (pieces : List (List ℕ)) (d : D)
      → other ≢ temporary
      → content other (copy_loop files temporary pieces d).1 ≡ content other d
  unfolding copy_loop
  copy_loop-others temporary other [] d h = refl
  copy_loop-others temporary other (piece ∷ rest) d h =
      let kept = disk.write_others temporary piece other d h in
      elim (Bool-cases ((files.write temporary piece d).0 /= length piece)) [
        | inl short ↦ rw short kept
        | inr full ↦
            rw full
              (copy_loop-others temporary other rest (files.write temporary piece d).1 h ∙ kept)
      ]

  copy_loop-whole :
      (temporary old : List ℕ) (pieces : List (List ℕ)) (d : D)
      → content temporary d ≡ some old
      → (copy_loop files temporary pieces d).0.1 ≡ 0
      → ((copy_loop files temporary pieces d).0.0 ≡ [])
        × (content temporary (copy_loop files temporary pieces d).1 ≡ some (old ++ joined pieces))
  unfolding copy_loop
  copy_loop-whole temporary old [] d h e = (refl, rw (append-nil old) h)
  copy_loop-whole temporary old (piece ∷ rest) d h e =
      elim (Bool-cases ((files.write temporary piece d).0 /= length piece)) [
        | inl short ↦ absurd (let e' : ◌≡◌ {A = ℕ} 4 0 = (rw short at e) in omega (arith, e'))
        | inr full ↦
            let equal : (files.write temporary piece d).0 ≡ length piece = ground (arith, full) in
            let now = disk.writes temporary piece old d h equal in
            let later = (rw full at e) in
            rw (full, sym (append_assoc old piece (joined rest)))
              (copy_loop-whole temporary (old ++ piece) rest (files.write temporary piece d).1 now
                later)
      ]

  commit-Replaced :
      (temporary staging : List ℕ) (code : ℕ) (old : Option (List ℕ)) (start d : D)
      → staging ≢ temporary
      → content staging d ≡ content staging start
      → (code ≡ 0 → content temporary d ≡ old)
      → Replaced content staging old start (commit files temporary staging code d)
  unfolding commit
  commit-Replaced temporary staging zero old start d ne kept written =
      renamed-Replaced files content disk temporary staging 8 old start d ne kept (written refl)
  commit-Replaced temporary staging (suc n) old start d ne kept written =
      let failed : (suc n /= 0) ≡ true = ground arith in
      rw failed (disk.remove_others temporary staging d ne ∙ kept)

  copy_package-Replaced :
      (source : Source) (temporary staging : List ℕ) (start d : D)
      → staging ≢ temporary
      → content staging d ≡ content staging start
      → content temporary d ≡ some []
      → (new : Option (List ℕ)) → (source.has_failed [] ≡ false → new ≡ some (joined source.pieces))
      → Replaced content staging new start (copy_package files source temporary staging d)
  unfolding copy_package
  copy_package-Replaced source temporary staging start d ne kept empty new delivered =
      let copied = copy_loop files temporary source.pieces d in
      let after = files.close temporary copied.1 in
      let read = source_code source copied.0.0 copied.0.1 in
      commit-Replaced temporary staging (staged_code after.0 read) new start after.1 ne
        (disk.close_others temporary staging copied.1 ne
          ∙ copy_loop-others temporary staging source.pieces d ne
          ∙ kept)
        (λ success.
          let (closed, code) = staged_code-zero after.0 read success in
          let (sound, complete) = source_code-zero source copied.0.0 copied.0.1 code in
          let (all, bytes) = copy_loop-whole temporary [] source.pieces d empty complete in
          disk.closes temporary copied.1 closed ∙ bytes ∙ sym (delivered (rw all at sound)))

  stage_to-Replaced :
      (update temporary staging : List ℕ) (d : D) (new : Option (List ℕ))
      → staging ≢ temporary
      → (files.open_read update d ≡ true
          → (files.open_write temporary d).0 ≡ true
          → (bytes : List ℕ) × (new ≡ some bytes)
            × (content update (files.open_write temporary d).1 ≡ some bytes))
      → Replaced content staging new d (stage_to files update temporary staging d)
  unfolding stage_to
  stage_to-Replaced update temporary staging d new ne readable =
      let opened = files.open_write temporary d in
      let kept = disk.open_others temporary staging d ne in
      elim (Bool-cases (files.open_read update d)) [
        | inr missing ↦ rw missing refl
        | inl found ↦ elim (Bool-cases opened.0) [
          | inl done ↦
              let (bytes, goal, now) = readable found done in
              rw (found, done)
                (copy_package-Replaced (files.source update opened.1) temporary staging d opened.1
                  ne kept (disk.opens temporary d done) new
                  (λ sound. goal ∙ ap some (sym (disk.delivers update bytes opened.1 now sound))))
          | inr failed ↦ rw (found, failed) kept
        ]
      ]

  checked-Replaced :
      (update staging : List ℕ) (d : D) (new : Option (List ℕ))
      → (files.open_read update d ≡ true
          → (files.open_write (temporary_of staging) d).0 ≡ true
          → (bytes : List ℕ) × (new ≡ some bytes)
            × (content update (files.open_write (temporary_of staging) d).1 ≡ some bytes))
      → Replaced content staging new d (stage_package files (some update) (some staging) d)
  unfolding stage_package make_temporary_path
  checked-Replaced update staging d new readable =
      elim (Bool-cases (length update == 0 || length staging == 0 || same update staging)) [
        | inl bad ↦ rw bad refl
        | inr good ↦ elim (Bool-cases (length staging == 0 || leb 512 (length staging + 5))) [
          | inl long ↦ rw (good, long) refl
          | inr short ↦
              rw (good, short)
                (stage_to-Replaced update (temporary_of staging) staging d new
                  (temporary-ne staging) readable)
        ]
      ]

  -- For paths that are not null, a package that is not the temporary file itself, and a file system
  -- that does as documented: staging returns 0, and then the staging path holds the bytes that the
  -- package held at the start, or it returns an error, and then the staging path holds what it held
  -- at the start.
  pub stage_package-Replaced :
      (update staging : List ℕ) (d : D)
      → update ≢ temporary_of staging
      → Replaced content staging
          (content update d)
          d
          (stage_package files (some update) (some staging) d)
  stage_package-Replaced update staging d ne =
      checked-Replaced update staging d (content update d) (λ found done.
        let (bytes, held) = disk.holds update d found in
        (bytes, held, disk.open_others (temporary_of staging) update d ne ∙ held))

  -- If the package is the temporary file itself, it is emptied before it is read: where staging
  -- returns 0, the staging path is left empty.
  pub stage_package-own_temporary :
      (staging : List ℕ) (d : D)
      → Replaced content staging
          (some [])
          d
          (stage_package files (some (temporary_of staging)) (some staging) d)
  stage_package-own_temporary staging d =
      checked-Replaced (temporary_of staging) staging d (some [])
        (λ found done. ([], refl, disk.opens (temporary_of staging) d done))
