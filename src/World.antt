-- ===== src/World.antt =====
-- What the shell acts on: the files under /etc and /tmp that it opens by name, and the commands
-- that it hands to system(3), oldest first.
use closed_bsd.Base.{Bool, true, false, List, [], ◌∷◌, ◌++◌, Option, none, some, if◌then◌else◌}
use closed_bsd.Text.{Text}

-- RULESCRIPT "/etc/rules", NATSCRIPT "/etc/nat", "/tmp/rules" and "/etc/dhclient.conf".
pub data File : Type 0 where
  rules nat tmp_rules dhclient_conf : File

abbrev pub same : File → File → Bool
same rules rules = true
same nat nat = true
same tmp_rules tmp_rules = true
same dhclient_conf dhclient_conf = true
same _ _ = false

pub record World : Type 0 where
  pub content : File → Option Text  -- `none`: the file does not exist
  pub opens : File → Bool  -- whether open(2) lets the program open or create the file
  pub ran : List Text

abbrev pub content_set : (File → Option Text) → File → Option Text → File → Option Text
content_set c f t g = if same f g then t else c g

abbrev pub put : World → File → Text → World
put w f t = record w { content = content_set w.content f (some t) }

abbrev pub or_empty : Option Text → Text
or_empty none = []
or_empty (some t) = t

-- fopen(f, "a+"): the file is created empty if it is missing. `none` is a null stream.
abbrev pub fopen_append : World → File → Option World
fopen_append w f = if w.opens f then some (put w f (or_empty (w.content f))) else none

-- fopen(f, "r") and fopen(f, "r+"): the content to read, or a null stream.
abbrev pub fopen_read : World → File → Option Text
fopen_read w f = if w.opens f then w.content f else none

-- fprintf to a stream that was opened for appending.
abbrev pub fprintf : World → File → Text → World
fprintf w f t = put w f (or_empty (w.content f) ++ t)

abbrev pub unlink : World → File → World
unlink w f = record w { content = content_set w.content f none }

abbrev pub system : World → Text → World
system w cmd = record w { ran = w.ran ++ cmd ∷ [] }
