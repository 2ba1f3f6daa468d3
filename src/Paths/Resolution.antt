-- ===== src/Paths/Resolution.antt =====
-- That the parts of main.py and settings.py agree on where the database is.
use mathlib.Core.List.{Memᴰ}
use llm_shadow_proxy.Base.{
  ◌≡◌, refl, sym, ap, ◌∙◌, true, none, some, Option-cases, ◌++◌, arith, inl, inr, ◌⊎◌,
}
use llm_shadow_proxy.Base.Text.{Text, codes, behind}
use llm_shadow_proxy.Settings.{RawStoreType}
use llm_shadow_proxy.Paths.{
  Machine, Places, resolve_relative, async_prefix, sync_prefix, split_url, resolved_database_url,
  sqlite_db_path, ensure_local_dirs, mismatch_tape_path,
}

-- What `pathlib` promises of `resolve`: its result is absolute, begins with no `~`, and is resolved.
pub record IsResolving (m : Machine) : Type 0 where
  pub absolute : (p : Text) → m.is_absolute (m.resolve p) ≡ true
  pub no_home : (p : Text) → m.expanduser (m.resolve p) ≡ m.resolve p
  pub again : (p : Text) → m.resolve (m.resolve p) ≡ m.resolve p

split_url-async : (t : Text) → split_url (async_prefix ++ t) ≡ some (async_prefix, t)
unfolding split_url behind
split_url-async t = refl

split_url-sync : (t : Text) → split_url (sync_prefix ++ t) ≡ some (sync_prefix, t)
unfolding split_url behind
split_url-sync t = refl

-- The prefix that is split off is one of the two.
split_url-prefix :
    (url : Text) {prefix path : Text}
    → split_url url ≡ some (prefix, path)
    → (prefix ≡ async_prefix) ⊎ (prefix ≡ sync_prefix)
unfolding split_url
split_url-prefix url e = ground arith

split_url-append :
    {prefix : Text}
    → (prefix ≡ async_prefix) ⊎ (prefix ≡ sync_prefix)
    → (t : Text) → split_url (prefix ++ t) ≡ some (prefix, t)
split_url-append (inl e) t = rw e (split_url-async t)
split_url-append (inr e) t = rw e (split_url-sync t)

module _ (m : Machine) (resolving : IsResolving m) where
  resolve_relative-resolve :
      (t : Places) (p : Text) → resolve_relative m t (m.resolve p) ≡ m.resolve p
  unfolding resolve_relative
  resolve_relative-resolve t p =
      ground (arith, resolving.no_home p, resolving.absolute p, resolving.again p)

  -- A path that is resolved once is not moved by a second resolution, whatever the second one's anchor is.
  resolve_relative-again :
      (s t : Places) (raw : Text)
      → resolve_relative m t (resolve_relative m s raw) ≡ resolve_relative m s raw
  unfolding resolve_relative
  resolve_relative-again s t raw = resolve_relative-resolve t _

  resolved_database_url-remote :
      (s : Places) → split_url s.database_url ≡ none → resolved_database_url m s ≡ s.database_url
  unfolding resolved_database_url
  resolved_database_url-remote s e = ground arith

  resolved_database_url-local :
      (s : Places) {prefix path : Text}
      → split_url s.database_url ≡ some (prefix, path)
      → resolved_database_url m s ≡ prefix ++ resolve_relative m s path
  unfolding resolved_database_url
  resolved_database_url-local s e = ground arith

  -- What `split_url` finds in a URL that is resolved.
  split_url-resolved_database_url :
      (s : Places) {prefix path : Text}
      → split_url s.database_url ≡ some (prefix, path)
      → split_url (resolved_database_url m s) ≡ some (prefix, resolve_relative m s path)
  split_url-resolved_database_url s {prefix = prefix} {path = path} e =
      rw (resolved_database_url-local s e)
        (split_url-append (split_url-prefix s.database_url e) (resolve_relative m s path))

  resolved_database_url-moved :
      (s t : Places) {prefix path : Text}
      → split_url s.database_url ≡ some (prefix, path)
      → t.database_url ≡ resolved_database_url m s
      → resolved_database_url m t ≡ resolved_database_url m s
  resolved_database_url-moved s t {prefix = prefix} {path = path} e same =
      resolved_database_url-local t (ap split_url same ∙ split_url-resolved_database_url s e)
      ∙ ap (λ p. prefix ++ p) (resolve_relative-again s t path)
      ∙ sym (resolved_database_url-local s e)

  -- Where `pathlib` keeps its promises: the URL that `resolved_database_url` returns, read again as the
  -- setting of a process with any other anchor, is the same URL.
  resolved_database_url-again :
      (s t : Places)
      → t.database_url ≡ resolved_database_url m s
      → resolved_database_url m t ≡ resolved_database_url m s
  resolved_database_url-again s t same = elim (Option-cases (split_url s.database_url)) [
    | inl e ↦
        (let url : t.database_url ≡ s.database_url = same ∙ resolved_database_url-remote s e in
          resolved_database_url-remote t (ap split_url url ∙ e) ∙ same)
    | inr ((prefix, path), e) ↦ resolved_database_url-moved s t e same
  ]

  ensure_local_dirs-Mem :
      (s : Places) (kind : RawStoreType) (url : Text) {prefix path : Text}
      → split_url url ≡ some (prefix, path)
      → Memᴰ (m.parent path) (ensure_local_dirs m s kind url)
  unfolding ensure_local_dirs split_url behind
  ensure_local_dirs-Mem s kind url e = rw e (Memᴰ.head refl)

  tape-async :
      (s : Places) (t : Text)
      → mismatch_tape_path m s (async_prefix ++ t) ≡ m.join (m.parent t) (codes "mismatches.sqlite")
  unfolding mismatch_tape_path behind
  tape-async s t = refl

  -- Where `pathlib` keeps its promises and the database's URL begins with `sqlite+aiosqlite:///`: with the
  -- URL that `resolved_database_url` returns, `_sqlite_db_path`, `_ensure_local_dirs` and
  -- `_mismatch_tape_path` speak of one file, which is where `resolve_relative` puts the path behind the
  -- prefix: its directory is the first that is made, and the tape lies in it.
  pub local_database-dirs :
      (s : Places) (kind : RawStoreType) {path : Text}
      → split_url s.database_url ≡ some (async_prefix, path)
      → (sqlite_db_path m s ≡ some (resolve_relative m s path))
        × (mismatch_tape_path m s (resolved_database_url m s)
            ≡ m.join (m.parent (resolve_relative m s path)) (codes "mismatches.sqlite"))
        × Memᴰ
            (m.parent (resolve_relative m s path))
            (ensure_local_dirs m s kind (resolved_database_url m s))
  unfolding sqlite_db_path
  local_database-dirs s kind {path = path} e =
      let found = split_url-resolved_database_url s e in
      (
        rw found refl,
        rw (resolved_database_url-local s e) (tape-async s (resolve_relative m s path)),
        ensure_local_dirs-Mem s kind (resolved_database_url m s) found,
      )
