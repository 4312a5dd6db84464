-- ===== src/Platform/Files.antt =====
-- internal/platform/linux/resolvconf.go: the fallback that rewrites /etc/resolv.conf. A call of the
-- package os fails where `Os` says; a write that fails can leave the file torn.
pub mod Restored
mod Tests
use tailjump.Prelude.{Bool, true, false, List, [], ◌∷◌, ◌++◌, Option, none, some, if◌then◌else◌}
use tailjump.Text.{Text, str}
use tailjump.Text.Split.{join}

pub data Entry : Type 0 where
  regular symlink : Text → Entry

-- /etc/resolv.conf, and the two records of the runtime directory.
pub record Files : Type 0 where
  pub conf : Option Entry
  pub link_file : Option Text
  pub backup_file : Option Text

pub data Call : Type 0 where
  make_dir stat_conf read_symlink write_link read_conf write_backup : Call
  remove_conf write_conf read_link read_backup make_symlink remove_link remove_backup : Call

-- Which calls fail and with what error, and what a write that fails leaves in its file, none where
-- it leaves the file as it was.
pub record Os : Type 0 where
  pub fails : Call → Option Text
  pub torn : Call → Option Text

abbrev pub Result : Type 0
Result = Files × Option Text

-- A call that does not write: the rest of the function where it succeeds.
abbrev pub after : Option Text → Files → Result → Result
after none fs next = next
after (some e) fs next = (fs, some e)

abbrev pub left_torn : Option Text → Option Text → Option Text
left_torn none before = before
left_torn (some part) before = some part

abbrev pub conf_torn : Option Text → Option Entry → Option Entry
conf_torn none before = before
conf_torn (some part) before = some (regular part)

-- os.WriteFile on each of the three files, where the function ends with it or goes on.
abbrev pub put_link : Os → Text → Files → Result
put_link os target fs =
    after (os.fails write_link)
      (record fs { link_file = left_torn (os.torn write_link) fs.link_file })
      (record fs { link_file = some target }, none)

abbrev pub put_backup : Os → Text → Files → Result
put_backup os text fs =
    after (os.fails write_backup)
      (record fs { backup_file = left_torn (os.torn write_backup) fs.backup_file })
      (record fs { backup_file = some text }, none)

abbrev pub put_conf : Os → Text → Files → Result
put_conf os content fs =
    after (os.fails write_conf) (record fs { conf = conf_torn (os.torn write_conf) fs.conf })
      (record fs { conf = some (regular content) }, none)

abbrev pub record_entry : Os → Option Entry → Files → Result
record_entry os none fs = (fs, none)
record_entry os (some (symlink target)) fs =
    after (os.fails read_symlink) fs (put_link os target fs)
record_entry os (some (regular text)) fs = after (os.fails read_conf) fs (put_backup os text fs)

unfoldable pub backup_resolv_conf : Os → Files → Result
backup_resolv_conf os fs =
    after (os.fails make_dir) fs (after (os.fails stat_conf) fs (record_entry os fs.conf fs))

abbrev pub rewrite : Os → Text → Result → Result
rewrite os content (fs, some e) = (fs, some e)
rewrite os content (fs, none) =
    after (os.fails remove_conf) fs (put_conf os content (record fs { conf = none }))

-- applyResolvConfFallback, with the content rendered.
unfoldable pub apply_fallback : Os → Text → Files → Result
apply_fallback os content fs = rewrite os content (backup_resolv_conf os fs)

-- The end of revert, after resolv.conf is removed; a write that fails leaves it removed or torn.
abbrev pub restore : Os → Option Text → Option Text → Files → Result
restore os (some target) backup fs = after (os.fails make_symlink) fs (
    after (os.fails remove_link) (record fs { conf = some (symlink target) })
      (record fs { conf = some (symlink target); link_file = none }, none))
restore os none (some text) fs =
    after (os.fails write_conf) (record fs { conf = conf_torn (os.torn write_conf) fs.conf })
      (after (os.fails remove_backup) (record fs { conf = some (regular text) })
        (record fs { conf = some (regular text); backup_file = none }, none))
restore os none none fs = (fs, none)

abbrev pub restore_recorded : Os → Option Text → Option Text → Files → Result
restore_recorded os none none fs = (fs, none)
restore_recorded os link backup fs =
    after (os.fails remove_conf) fs (restore os link backup (record fs { conf = none }))

unfoldable pub revert_fallback : Os → Files → Result
revert_fallback os fs =
    after (os.fails read_link) fs
      (after (os.fails read_backup) fs (restore_recorded os fs.link_file fs.backup_file fs))

abbrev pub search_line : List Text → Text
search_line [] = []
search_line (d ∷ domains) = str "search " ++ (join (str " ") (d ∷ domains) ++ str "\n")

unfoldable pub server_lines : List Text → Text
server_lines [] = []
server_lines (s ∷ servers) = str "nameserver " ++ (s ++ (str "\n" ++ server_lines servers))

-- renderResolvConf; a server is its printed address.
unfoldable pub render : List Text → List Text → Text
render servers domains =
    str "# written by tj, restored on disconnect\n" ++ (search_line domains ++ server_lines servers)
