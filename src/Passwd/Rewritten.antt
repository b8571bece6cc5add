-- ===== src/Passwd/Rewritten.antt =====
-- What passwd makes of the password file.
use closed_bsd.Base.{
  ℕ, ◌≤◌, ◌≡◌, refl, sym, ap, ◌∙◌, true, false, some, List, [], ◌∷◌, ◌++◌, map, append_assoc, arith,
  length, length-append, take-eq_of_le, ◌==◌, if◌then◌else◌, All,
}
use closed_bsd.Devices.Device.{strcmp_eq}
use closed_bsd.Fault.{ok}
use closed_bsd.Passwd.{
  format, copied_line, copied, Entry, modified, pwd_mkdb, writetcnp, Files, success, set_passwd,
}
use closed_bsd.Text.Cat.{join}
use closed_bsd.Text.Lines.{fgets_of, fgets_of-line, chunks}
use closed_bsd.Text.Token.{skip_none, strtok, token-append}
use closed_bsd.Text.{Text, codes, snprintf, contains}

-- One line of the password file: the name of a user, and what stands behind its colon.
pub record Account : Type 0 where
  pub user : Text
  pub rest : Text

abbrev pub account_line : Account → Text
account_line a = a.user ++ (codes ":" ++ (a.rest ++ codes "\n"))

-- A name without a colon that is not empty, in a line that fits in `buf` and has no percent sign.
pub record IsAccount (a : Account) : Type 0 where
  pub first : ℕ
  pub others : Text
  pub splits : a.user ≡ first ∷ others
  pub no_colon : contains b':' a.user ≡ false
  pub no_percent : contains b'%' (account_line a) ≡ false
  pub no_newline : contains b'\n' (a.user ++ (codes ":" ++ a.rest)) ≡ false
  pub short : length (a.user ++ (codes ":" ++ a.rest)) ≤ 1022

format_plain : (s : Text) → contains b'%' s ≡ false → format s ≡ ok s
unfolding format contains
format_plain [] h = refl
format_plain (c ∷ []) h = ground arith
format_plain (c ∷ d ∷ cs) h = ground (arith, format_plain (d ∷ cs))

strtok-append :
    (q c : ℕ) (cs rest : Text)
    → contains q (c ∷ cs) ≡ false
    → strtok q ((c ∷ cs) ++ q ∷ rest) ≡ some (c ∷ cs)
unfolding strtok contains
strtok-append q c cs rest h =
    let other : (c == q) ≡ false = ground arith in
    rw (skip_none q c (cs ++ q ∷ rest) other, strtok) (ap some (token-append q (c ∷ cs) rest h))

-- A line of the password file: its fields with a colon between them.
abbrev pub fields_line : List Text → Text
fields_line [] = codes "\n"
fields_line (x ∷ []) = x ++ codes "\n"
fields_line (x ∷ y ∷ xs) = x ++ (codes ":" ++ fields_line (y ∷ xs))

-- The line of a user by passwd(5): name, password, uid, gid, class, change, expire, gecos, home and
-- shell, with no class and with no change or expiry.
abbrev pub master_line : Entry → Text → Text
master_line pw passwd = fields_line (
    pw.name
    ∷ passwd
    ∷ pw.uid
    ∷ pw.gid
    ∷ []
    ∷ codes "0"
    ∷ codes "0"
    ∷ pw.gecos
    ∷ pw.dir
    ∷ pw.shell
    ∷ [])

modified-master_line :
    (pw : Entry) (passwd : Text)
    → length (master_line pw passwd) ≤ 1023
    → modified pw passwd ≡ master_line pw passwd
modified-master_line pw passwd h = take-eq_of_le 1023 (master_line pw passwd) h

-- What is copied for an account: the new entry for root, and every other line as it is.
abbrev pub replaced : Text → Text → Account → Text
replaced name modbuf a = if strcmp_eq a.user name then modbuf else account_line a

account_shape : (a : Account) → account_line a ≡ (a.user ++ (codes ":" ++ a.rest)) ++ codes "\n"
account_shape a = simp append_assoc

first_field :
    (a : Account) → IsAccount a → strtok b':' (snprintf 1024 (account_line a)) ≡ some a.user
first_field a h =
    let short : length (account_line a) ≤ 1023 =
      rw (account_shape a)
        (omega (arith, h.short, length-append (a.user ++ (codes ":" ++ a.rest)) (codes "\n"))) in
    rw (take-eq_of_le 1023 (account_line a) short) (
      rw h.splits
        (strtok-append b':' h.first h.others (a.rest ++ codes "\n") (rw (← h.splits) h.no_colon)))

copied_line-replaced :
    (name modbuf : Text) (a : Account)
    → IsAccount a
    → copied_line name modbuf (account_line a) ≡ ok (replaced name modbuf a)
unfolding copied_line
copied_line-replaced name modbuf a h =
    rw (format_plain (account_line a) h.no_percent) (rw (first_field a h) refl)

abbrev pub file : List Account → Text
file accounts = join (map account_line accounts)

fgets_of-file :
    (accounts : List Account)
    → All IsAccount accounts
    → fgets_of 1023 (file accounts) ≡ map account_line accounts
unfolding chunks
fgets_of-file [] h = refl
fgets_of-file (a ∷ accounts) h =
    let l = a.user ++ (codes ":" ++ a.rest) in
    let shape : file (a ∷ accounts) ≡ l ++ b'\n' ∷ file accounts = simp append_assoc in
    ap (fgets_of 1023) shape
    ∙ fgets_of-line 1023 l (file accounts) h.0.no_newline (omega (arith, h.0.short))
    ∙ ap (λ (t : Text). t ∷ fgets_of 1023 (file accounts)) (sym (account_shape a))
    ∙ ap (◌∷◌ (account_line a)) (fgets_of-file accounts h.1)

copied-replaced :
    (name modbuf : Text) (accounts : List Account)
    → All IsAccount accounts
    → copied name modbuf (map account_line accounts)
      ≡ ok (join (map (replaced name modbuf) accounts))
unfolding copied
copied-replaced name modbuf [] h = refl
copied-replaced name modbuf (a ∷ accounts) h =
    rw (copied_line-replaced name modbuf a h.0) (rw (copied-replaced name modbuf accounts h.1) refl)

-- For a password file of accounts whose lines fit in the buffer and have no percent sign, where
-- both files can be opened, all commands start, a key is pressed, and the new line fits in its
-- buffer: pwd_mkdb is run on the file with the lines of root replaced by the line of passwd(5)
-- with the new password and all other lines as they were, behind what a copy that was left over
-- held; then the settings are saved and the copy is removed.
pub set_passwd-replaced :
    (pw : Entry) (passwd : Text) (accounts : List Account) (f : Files)
    → All IsAccount accounts
    → f.master ≡ some (file accounts)
    → f.tmp_opens ≡ true
    → length (master_line pw passwd) ≤ 1023
    → set_passwd
        (record { mkdb_starts = true; key_pressed = true; write_starts = true })
        pw
        passwd
        f
      ≡ ok (
        record f {
          tmp = [];
          ran =
              (f.ran
                ++ pwd_mkdb
                    (f.tmp ++ join (map (replaced pw.name (master_line pw passwd)) accounts))
                  ∷ [])
              ++ writetcnp ∷ [];
        },
        success,
      )
unfolding set_passwd
set_passwd-replaced pw passwd accounts f h m o n =
    rw
      (
        m,
        o,
        modified-master_line pw passwd n,
        fgets_of-file accounts h,
        copied-replaced pw.name (master_line pw passwd) accounts h,
      )
      refl
