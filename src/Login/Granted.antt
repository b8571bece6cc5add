-- ===== src/Login/Granted.antt =====
-- Who gets a shell.
use closed_bsd.Base.{
  ℕ, ◌≢◌, ◌≤◌, ◌≡◌, refl, ap, ◌↔◌, ◌⊎◌, inl, inr, true, false, Option, none, some, List, [], ◌∷◌,
  arith, leb, lt→ltb, length, Bool-cases,
}
use closed_bsd.Devices.Device.{strcmp_eq}
use closed_bsd.Fault.{ok, ok-injective}
use closed_bsd.Login.{Child, Event, shell, exited, ran, login, check}
use closed_bsd.Text.{Text, codes}

strcmp_eq_refl : (s : Text) → strcmp_eq s s ≡ true
unfolding strcmp_eq
strcmp_eq_refl [] = refl
strcmp_eq_refl (c ∷ cs) = ground (arith, strcmp_eq_refl cs)

strcmp_eq_sound : (s t : Text) → strcmp_eq s t ≡ true → s ≡ t
unfolding strcmp_eq
strcmp_eq_sound [] [] h = refl
strcmp_eq_sound [] (d ∷ ds) h = cc
strcmp_eq_sound (c ∷ cs) [] h = cc
strcmp_eq_sound (c ∷ cs) (d ∷ ds) h = ground (arith, strcmp_eq_sound cs ds)

not_empty : (c : ℕ) (cs : Text) → leb (length (c ∷ cs)) 0 ≡ false
not_empty c cs = ground arith

exited-ne-shell : {n : ℕ} → exited n ≢ shell
exited-ne-shell e = cc

module _ (getpwnam : Text → Option Text) (crypt : Text → Text → Text) where
  -- The user is in the password file, with no password or with that of which this is the text.
  abbrev pub Knows : Text → Text → Type 0
  Knows user pass =
      (salt : Text) × (getpwnam user ≡ some salt) × ((salt ≡ []) ⊎ (crypt pass salt ≡ salt))

  check-shell :
      (pass : Text) (entry : Option Text)
      → (check getpwnam crypt pass entry).0 ≡ shell
      → (salt : Text) × (entry ≡ some salt) × ((salt ≡ []) ⊎ (crypt pass salt ≡ salt))
  check-shell pass none h = cc
  check-shell pass (some []) h = ([], refl, inl refl)
  check-shell pass (some (c ∷ cs)) h =
      elim (Bool-cases (strcmp_eq (crypt pass (c ∷ cs)) (c ∷ cs))) [
        | inl y ↦ (c ∷ cs, refl, inr (strcmp_eq_sound (crypt pass (c ∷ cs)) (c ∷ cs) y))
        | inr n ↦ let h' = rw n at (rw (not_empty c cs) at h) in absurd (exited-ne-shell h')
      ]

  shell-check :
      (pass salt : Text)
      → (salt ≡ []) ⊎ (crypt pass salt ≡ salt)
      → (seen : List Event) × (check getpwnam crypt pass (some salt) ≡ (shell, seen))
  shell-check pass [] h = (_, refl)
  shell-check pass (c ∷ cs) (inl e) = cc
  shell-check pass (c ∷ cs) (inr e) = (
    ran (codes "/sbin/cat /etc/motd") ∷ [],
    rw (not_empty c cs) (rw (e, strcmp_eq_refl (c ∷ cs)) refl),
  )

  -- For a name of 1 to 127 bytes, login gives a shell exactly to a user who is in the password file
  -- and has no password there or gave the right one.
  pub login-shell :
      (user pass : Text)
      → 1 ≤ length user
      → length user ≤ 127
      → ((seen : List Event) × (login getpwnam crypt user pass ≡ ok (shell, seen)))
        ↔ Knows user pass
  unfolding login
  login-shell user pass l h =
      let named : leb (length user) 0 ≡ false = ground arith in
      (
        (λ r. check-shell pass (getpwnam user) (
            ap (λ (o : Child × List Event). o.0)
              (ok-injective (rw (lt→ltb (length user) 128 (omega arith), named) at r.1)))),
        (λ k.
            let (seen, e) = shell-check pass k.0 k.2 in
            (seen, rw (lt→ltb (length user) 128 (omega arith), named, k.1) (ap ok e))),
      )
