-- ===== src/Backup/Contained.antt =====
-- Where restoring writes.
use olivechain.Base.{
  Bool, false, any, ◌||◌, ℕ, String, ◌<>◌, true, not, some, List, [], ◌∷◌, lookup, insert, ◌≡◌,
  refl, ◌∙◌, ap, sym, ◌⊎◌, inl, inr, ◌==◌, eq_iff, lookup-insert, Bool-cases, if◌then◌else◌, arith,
}
use olivechain.Effects.Ensures.{
  Ensures, bind-Ensures, done-Ensures, if-Ensures, reads-Ensures, pure-Ensures, or_raise-Ensures,
  raise_if-Ensures, modify-Ensures,
}
use olivechain.Json.{Value, Floats, obj, end, null}
use olivechain.Portal.Rows.{row_get}
use olivechain.Backup.{
  split_path, ArchiveLibrary, Member, Files, is_safe_name, starts_with, check_file, restore_member,
  restore_members, restore_backup, manifest_of,
}

-- A relative name under one of the two directories, none of whose parts goes up.
pub record IsAllowed (name : String) : Type 0 where
  pub relative : starts_with "/" name ≡ false
  pub stays : any (λ part. part == "..") (split_path name) ≡ false
  pub below : (starts_with "data/" name ≡ true) ⊎ (starts_with "evidence_store/" name ≡ true)

either : (a b : Bool) → (a || b) ≡ true → (a ≡ true) ⊎ (b ≡ true)
either true b h = inl refl
either false b h = inr h

is_safe_name-IsAllowed : (name : String) → is_safe_name name ≡ true → IsAllowed name
unfolding is_safe_name
is_safe_name-IsAllowed name h = record {
  relative = ground arith;
  stays = ground arith;
  below = either (starts_with "data/" name) (starts_with "evidence_store/" name) (ground arith);
}

module _ (L : ArchiveLibrary) (F : Floats) where
  -- A path that a safe name has under the destination, and that leads inside it.
  pub record IsInside (dest path : String) : Type 0 where
    pub name : String
    pub allowed : IsAllowed name
    pub joined : path ≡ L.join dest name
    pub inside : starts_with (dest <> "/") (L.abspath path) ≡ true

  -- What has changed since a state of the files.
  pub record IsContained (dest : String) (before files : Files) : Type 0 where
    pub at : (path : String) → (lookup path files ≡ lookup path before) ⊎ IsInside dest path

  writes :
      (dest name : String) (bytes : List ℕ) (before files : Files)
      → is_safe_name name ≡ true
      → starts_with (dest <> "/") (L.abspath (L.join dest name)) ≡ true
      → IsContained dest before files
      → IsContained dest before (insert (L.join dest name) bytes files)
  writes dest name bytes before files safe inside c = record {
    at = λ path. elim (Bool-cases (L.join dest name == path)) [
      | inl same ↦
          let e = (eq_iff (L.join dest name) path).0 same in
          inr (record {
            name = name;
            allowed = is_safe_name-IsAllowed name safe;
            joined = sym e;
            inside = ap (λ p. starts_with (dest <> "/") (L.abspath p)) (sym e) ∙ inside;
          })
      | inr other ↦
          let kept =
            lookup-insert (L.join dest name) path bytes files
            ∙ ap (λ b. if b then some bytes else lookup path files) other in
          elim (c.at path) [ inl as_before ↦ inl (kept ∙ as_before) | inr i ↦ inr i ]
    ];
  }

  check_file-Ensures :
      (dest : String) (checksums : Value) (m : Member) (before : Files)
      → Ensures (IsContained dest before) (check_file L F checksums m) (λ done. Unit {0})
  unfolding check_file
  check_file-Ensures dest checksums m before =
      bind-Ensures (reads-Ensures (row_get null m.name checksums))
        λ want got. done-Ensures (raise_if-Ensures _ _)

  restore_member-Ensures :
      (dest : String) (checksums : Value) (m : Member) (before : Files)
      → Ensures (IsContained dest before) (restore_member L F dest checksums m) (λ done. Unit {0})
  unfolding restore_member
  restore_member-Ensures dest checksums m before =
      if-Ensures (m.name == "manifest.json") (λ h. done-Ensures (pure-Ensures tt))
        λ h. bind-Ensures (raise_if-Ensures (not m.is_file) _) λ a regular.
          bind-Ensures (raise_if-Ensures (not (is_safe_name m.name)) _) λ b safe.
            bind-Ensures
              (raise_if-Ensures (not (starts_with (dest <> "/") (L.abspath (L.join dest m.name))))
                _)
              λ c inside.
                bind-Ensures
                  (modify-Ensures (insert (L.join dest m.name) m.content) λ files contained.
                    writes dest m.name m.content before files (ground arith) (ground arith)
                      contained)
                  λ d done. check_file-Ensures dest checksums m before

  restore_members-Ensures :
      (dest : String) (checksums : Value) (ms : List Member) (before : Files)
      → Ensures (IsContained dest before) (restore_members L F dest checksums ms) (λ done. Unit {0})
  unfolding restore_members
  restore_members-Ensures dest checksums [] before = done-Ensures (pure-Ensures tt)
  restore_members-Ensures dest checksums (m ∷ ms) before =
      bind-Ensures (restore_member-Ensures dest checksums m before)
        λ a done. restore_members-Ensures dest checksums ms before

  restore_backup-Ensures :
      (archive : List ℕ) (dest_dir : String) (before : Files)
      → Ensures
          (IsContained (L.abspath dest_dir) before)
          (restore_backup L F archive dest_dir)
          (λ manifest. Unit {0})
  unfolding restore_backup
  restore_backup-Ensures archive dest_dir before =
      bind-Ensures (or_raise-Ensures (L.to_members archive) _) λ members opened.
        bind-Ensures (reads-Ensures (manifest_of L F members)) λ manifest read.
          bind-Ensures (reads-Ensures (row_get (obj end) "files" manifest)) λ checksums got.
            bind-Ensures (restore_members-Ensures (L.abspath dest_dir) checksums members before)
              λ a done. done-Ensures (pure-Ensures manifest)

  -- Whatever an archive holds, and whether restoring it raises or not, every file that it adds or
  -- changes is at the path of a name under data/ or evidence_store/ that has no ".." among its
  -- parts, joined to the destination, and the absolute form of that path is inside the destination.
  pub restore_backup-Contained :
      (archive : List ℕ) (dest_dir path : String) (files : Files)
      → (lookup path (restore_backup L F archive dest_dir files).1 ≡ lookup path files)
        ⊎ IsInside (L.abspath dest_dir) path
  restore_backup-Contained archive dest_dir path files =
      ((restore_backup-Ensures archive dest_dir files).at files
          (record { at = λ p. inl refl })).0.at
        path
