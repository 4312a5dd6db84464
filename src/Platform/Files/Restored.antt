-- ===== src/Platform/Files/Restored.antt =====
-- What a revert gives back of /etc/resolv.conf.
use tailjump.Prelude.{Option, none, some, ◌≡◌, refl}
use tailjump.Text.{Text}
use tailjump.Platform.Files.{
  Entry, regular, symlink, Files, Os, Result, after, write_link, write_backup, apply_fallback,
  revert_fallback, backup_resolv_conf,
}
use tailjump.Platform.Files.{
  make_dir, stat_conf, read_symlink, read_conf, remove_conf, write_conf, record_entry,
}
use tailjump.Platform.Files.{rewrite}

-- The files of a host without a session.
abbrev pub untouched : Option Entry → Files
untouched conf = record { conf = conf; link_file = none; backup_file = none }

abbrev pub calm : Os
calm = record { fails = λ c. none; torn = λ c. none }

-- To prove a property of a result, prove it of the failure and of what follows.
after_cases :
    (P : Result → Type 0) (e : Option Text) (fs : Files) (next : Result)
    → ((x : Text) → P (fs, some x))
    → P next
    → P (after e fs next)
after_cases P none fs next failed done = done
after_cases P (some x) fs next failed done = failed x

-- A later revert, in which every call succeeds, gives back the entry and removes the records.
abbrev pub Restores : Option Entry → Result → Type 0
Restores conf r = revert_fallback calm r.0 ≡ (untouched conf, none)

recorded_regular :
    (text : Text) (conf : Option Entry) (x : Option Text)
    → Restores
        (some (regular text))
        (record { conf = conf; link_file = none; backup_file = some text }, x)
unfolding revert_fallback
recorded_regular text conf x = refl

recorded_symlink :
    (target : Text) (conf : Option Entry) (x : Option Text)
    → Restores
        (some (symlink target))
        (record { conf = conf; link_file = some target; backup_file = none }, x)
unfolding revert_fallback
recorded_symlink target conf x = refl

untouched-Restores : (e : Entry) (x : Text) → Restores (some e) (untouched (some e), some x)
unfolding revert_fallback
untouched-Restores e x = refl

module _ (os : Os) (content : Text) where
  rewrite-Restores :
      (e : Entry) (fs : Files)
      → ((conf : Option Entry) (x : Option Text) → Restores (some e) (record fs { conf = conf }, x))
      → Restores (some e) (rewrite os content (fs, none))
  rewrite-Restores e fs h =
      after_cases (Restores (some e)) (os.fails remove_conf) fs _ (λ x. h fs.conf (some x))
        (after_cases (Restores (some e)) (os.fails write_conf) _ _ (λ x. h _ (some x)) (h _ none))

  abbrev Rewritten : Entry → Result → Type 0
  Rewritten e r = Restores (some e) (rewrite os content r)

  record_restores :
      (e : Entry)
      → os.torn write_link ≡ none
      → os.torn write_backup ≡ none
      → Rewritten e (record_entry os (some e) (untouched (some e)))
  record_restores (regular text) l b =
      after_cases (Rewritten (regular text)) (os.fails read_conf) _ _
        (untouched-Restores (regular text))
        (after_cases (Rewritten (regular text)) (os.fails write_backup) _ _
          (λ x. rw b (untouched-Restores (regular text) x))
          (rewrite-Restores (regular text) _ (recorded_regular text)))
  record_restores (symlink target) l b =
      after_cases (Rewritten (symlink target)) (os.fails read_symlink) _ _
        (untouched-Restores (symlink target))
        (after_cases (Rewritten (symlink target)) (os.fails write_link) _ _
          (λ x. rw l (untouched-Restores (symlink target) x))
          (rewrite-Restores (symlink target) _ (recorded_symlink target)))

  -- On a host with a resolv.conf and no session, whichever calls of applyResolvConfFallback fail, a
  -- later revert in which every call succeeds gives back the file or the symlink, and leaves no
  -- record. A write of a record that fails must leave no part of it.
  pub apply_fallback-Restores :
      (e : Entry)
      → os.torn write_link ≡ none
      → os.torn write_backup ≡ none
      → Restores (some e) (apply_fallback os content (untouched (some e)))
  unfolding apply_fallback backup_resolv_conf
  apply_fallback-Restores e l b =
      after_cases (Rewritten e) (os.fails make_dir) _ _ (untouched-Restores e) (
        after_cases (Rewritten e) (os.fails stat_conf) _ _ (untouched-Restores e)
          (record_restores e l b))

-- Without a resolv.conf before the session, a revert leaves the file that the session wrote.
pub apply_fallback_absent :
    (content : Text)
    → (revert_fallback calm (apply_fallback calm content (untouched none)).0).0
      ≡ untouched (some (regular content))
unfolding apply_fallback backup_resolv_conf revert_fallback
apply_fallback_absent content = refl

-- A record that a failed write leaves torn becomes the resolv.conf of the host at the revert.
pub apply_fallback_torn :
    (os : Os) (content text part error : Text)
    → os.fails make_dir ≡ none
    → os.fails stat_conf ≡ none
    → os.fails read_conf ≡ none
    → os.fails write_backup ≡ some error
    → os.torn write_backup ≡ some part
    → (revert_fallback calm (apply_fallback os content (untouched (some (regular text)))).0).0
      ≡ untouched (some (regular part))
unfolding apply_fallback backup_resolv_conf revert_fallback
apply_fallback_torn os content text part error a b c d e = rw (a, b, c, d, e) refl
