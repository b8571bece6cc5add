-- ===== src/Passwd.antt =====
-- The command passwd (closedbsd/passwd/passwd.c), which sets the password of root. libc's crypt and
-- random numbers are parameters, and so is what the user types.
pub mod Salt
pub mod Rewritten
mod Examples
use closed_bsd.Base.{Bool, Option, none, some, List, [], ◌∷◌, ◌++◌, ◌==◌, if◌then◌else◌}
use closed_bsd.Devices.Device.{strcmp_eq}
use closed_bsd.Fault.{Result, ok, fault, null, uninitialised, ◌>>=◌}
use closed_bsd.Text.Lines.{fgets_of}
use closed_bsd.Text.Token.{strtok}
use closed_bsd.Text.{Text, codes, snprintf}

-- snprintf(tmpbuf, 1024, buf), which reads its text as a format: two percent signs print one, and
-- any other directive reads an argument that is not passed.
unfoldable pub format : Text → Result Text
format [] = ok []
format (c ∷ []) = if c == b'%' then fault uninitialised else ok (c ∷ [])
format (c ∷ d ∷ cs) =
    let one = format (d ∷ cs) >>= λ t. ok (c ∷ t) in
    let two = format cs >>= λ t. ok (c ∷ t) in
    if c == b'%' then (if d == b'%' then two else fault uninitialised) else one

-- if (strcmp(uname, pw->pw_name) == 0): the new entry in place of the line. bzero empties `buf`.
abbrev pub chosen_line : Text → Text → Text → Option Text → Result Text
chosen_line name modbuf buf none = fault null
chosen_line name modbuf buf (some uname) = ok (if strcmp_eq uname name then modbuf else buf)

-- What is printed to the copy for one line.
unfoldable pub copied_line : Text → Text → Text → Result Text
copied_line name modbuf buf =
    format buf >>= λ t. chosen_line name modbuf buf (strtok b':' (snprintf 1024 t))

-- while (fgets(buf, sizeof(buf), stream) != NULL) …
unfoldable pub copied : Text → Text → List Text → Result Text
copied name modbuf [] = ok []
copied name modbuf (buf ∷ bufs) =
    copied_line name modbuf buf >>= λ l. copied name modbuf bufs >>= λ rest. ok (l ++ rest)

-- The entry of root as getpwnam found it, with its numbers in decimal.
pub record Entry : Type 0 where
  pub name : Text
  pub uid : Text
  pub gid : Text
  pub gecos : Text
  pub dir : Text
  pub shell : Text

-- snprintf(modbuf, sizeof(modbuf), "%s:%s:%d:%d::0:0:%s:%s:%s\n", …)
abbrev pub modified : Entry → Text → Text
modified pw passwd = snprintf 1024 (
    pw.name
    ++ (codes ":"
        ++ (passwd
            ++ (codes ":"
                ++ (pw.uid
                    ++ (codes ":"
                        ++ (pw.gid
                            ++ (codes "::0:0:"
                                ++ (pw.gecos
                                    ++ (codes ":"
                                        ++ (pw.dir
                                            ++ (codes ":" ++ (pw.shell ++ codes "\n")))))))))))))

-- The files, and the commands that were run on them, oldest first: pwd_mkdb with the file that it
-- was given.
pub data Event : Type 0 where
  pwd_mkdb : Text → Event
  writetcnp : Event

pub record Files : Type 0 where
  pub master : Option Text  -- /etc/master.passwd, if it can be opened
  pub tmp : Text  -- /etc/mpw.tmp, empty if it is missing
  pub tmp_opens : Bool
  pub ran : List Event

-- Whether system can start each command, and whether the user presses a key.
pub record Answers : Type 0 where
  pub mkdb_starts : Bool
  pub key_pressed : Bool
  pub write_starts : Bool

-- The results 0 and -1.
pub data Ret : Type 0 where
  success failure : Ret

abbrev pub unlinked : Files → Files
unlinked f = record f { tmp = [] }

-- From the call of writetcnp on.
abbrev pub written : Answers → Files → Files × Ret
written a f =
    if a.key_pressed
    then (if a.write_starts
        then (unlinked (record f { ran = f.ran ++ writetcnp ∷ [] }), success)
        else (unlinked f, failure))
    else (unlinked f, success)

-- From the call of pwd_mkdb on. The unlink of "/etc/mpw" leaves the copy in place.
abbrev pub finish : Answers → Files → Files × Ret
finish a f =
    if a.mkdb_starts
    then written a (record f { ran = f.ran ++ pwd_mkdb f.tmp ∷ [] })
    else (f, failure)

abbrev pub with_streams : Answers → Entry → Text → Files → Option Text → Bool → Result (Files × Ret)
with_streams a pw passwd f none opens = fault null
with_streams a pw passwd f (some content) opens =
    if opens
    then (copied pw.name (modified pw passwd) (fgets_of 1023 content) >>= λ t.
        ok (finish a (record f { tmp = f.tmp ++ t })))
    else fault null

-- `main`, with the encrypted password that crypt made of what the user typed. A copy that is there
-- already is appended to.
unfoldable pub set_passwd : Answers → Entry → Text → Files → Result (Files × Ret)
set_passwd a pw passwd f = with_streams a pw passwd f f.master f.tmp_opens
