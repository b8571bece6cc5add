-- ===== src/IfsCfg/Configured.antt =====
-- What `ifs_cfg` leaves in the device database.
use closed_bsd.Base.{
  ℕ, ◌≤◌, ◌<◌, ◌≡◌, refl, sym, ◌∙◌, true, none, some, [], ◌∷◌, arith, inl, inr, lt→ltb, length,
  Option-cases,
}
use closed_bsd.Btree.{Btree, Stored}
use closed_bsd.Devices.Device.{Device, State}
use closed_bsd.Devices.Dhcp.{next-free}
use closed_bsd.Devices.Lookup.{by_id, ext_exist-find, dev_ext-find, unset_ext-missing}
use closed_bsd.Devices.Reliable.{IsReliable, find-Stored, insert_device-succeeds}
use closed_bsd.Devices.Search.{find, is_ext, device_exist, ext_exist, dev_ext}
use closed_bsd.Devices.Table.{
  IsTable, table, insert_device-Inserted, insert_device-IsTable, next_device_id-length,
}
use closed_bsd.Fault.{ok}
use closed_bsd.IfsCfg.Bounds.{line, press_enter, rounds-lines}
use closed_bsd.IfsCfg.Store.{
  Stack, Answers, device_of, decide_ext, store_new, store_fields, ifs_cfg,
}
use closed_bsd.IfsCfg.{Fields, confirmed, first_fields, no_fields}
use closed_bsd.Text.{Text}

module _ (b : Btree Device) where
  first_fields-none :
      (dev : Text) (s : State b)
      → device_exist b dev s ≡ ok none
      → first_fields b dev s ≡ ok no_fields
  unfolding first_fields
  first_fields-none dev s e = rw e refl

  find-ext_exist :
      (s : State b) {db : b.Db}
      → s.file ≡ some db
      → s.opens ≡ true
      → ext_exist b s ≡ ok none
      → find is_ext (table b s) ≡ none
  find-ext_exist s f o e = elim (Option-cases (find is_ext (table b s))) [
    | inl n ↦ n
    | inr (d, y) ↦ let e' = sym (ext_exist-find b s f o) ∙ e in let e'' = rw y at e' in cc
  ]

  decide_ext-first :
      (stack : Stack) (answers : Answers) (d : Fields) (s : State b)
      → 1 < length d.gateway
      → answers.default_gateway ≡ true
      → ext_exist b s ≡ ok none
      → decide_ext b stack answers d s ≡ ok (s, 1)
  unfolding decide_ext
  decide_ext-first stack answers d s g a e = rw (lt→ltb 1 (length d.gateway) g, a, e) refl

  -- A device that the database does not know, in a database that is there, may be opened and takes
  -- every write: the user types its address, netmask and gateway (of at most 15 bytes each), makes
  -- it the default gateway where none is set, and confirms. The device is stored under the next id
  -- with what was typed, the table stays well formed with one record more, and the device is from
  -- then on the external device.
  pub ifs_cfg-Configured :
      (stack : Stack) (answers : Answers) (dev ip netmask gateway : Text) (s : State b) {db : b.Db}
      → IsReliable b
      → s.file ≡ some db
      → s.opens ≡ true
      → IsTable (table b s)
      → device_exist b dev s ≡ ok none
      → ext_exist b s ≡ ok none
      → answers.default_gateway ≡ true
      → length dev ≤ 5
      → length ip ≤ 15
      → length netmask ≤ 15
      → 2 ≤ length gateway
      → length gateway ≤ 15
      → (s' : State b) × (ifs_cfg b stack answers dev
            (line ip ∷ line netmask ∷ line gateway ∷ press_enter ∷ [])
            s
          ≡ ok (s', confirmed (record { ip = ip; netmask = netmask; gateway = gateway })))
        × Stored
            (length (table b s))
            (device_of dev
              (record { ip = ip; netmask = netmask; gateway = gateway })
              (length (table b s))
              1)
            (table b s)
            (table b s')
        × IsTable (table b s')
        × (dev_ext b s' ≡ ok (some dev))
  unfolding ifs_cfg store_fields store_new
  ifs_cfg-Configured stack answers dev ip netmask gateway s r f o t n e a l i m g h =
      let d : Fields = record { ip = ip; netmask = netmask; gateway = gateway } in
      let v = device_of dev d (length (table b s)) 1 in
      let (s', db', stored, there) = insert_device-succeeds b v s r o in
      let ins = insert_device-Inserted b v s stored in
      let (kept, grown) = insert_device-IsTable b v s stored t (omega arith) in
      (
        s',
        rw
            (
              first_fields-none dev s n,
              rounds-lines ip netmask gateway no_fields (omega arith) (omega arith) (omega arith),
              decide_ext-first stack answers d s g a e,
              lt→ltb (length dev) 6 (omega arith),
              n,
              next_device_id-length b s f o,
              stored,
            )
            refl,
        ins.stored,
        kept,
        dev_ext-find b s' there ins.opens_same
            ∙ rw
                (find-Stored is_ext v ins.stored (next-free (table b s) t) (find-ext_exist s f o e)
                  refl)
                refl,
      )

  -- Where another gateway is set and the user lets it be replaced, the mark of the device that is
  -- cleared is that of the id that the stack holds: if no record has it, no device is cleared, and
  -- the device is to be stored with the mark that the stack holds.
  pub decide_ext-junk :
      (stack : Stack) (answers : Answers) (d : Fields) (s : State b) {db : b.Db} {i : ℕ}
      → s.file ≡ some db
      → s.opens ≡ true
      → 2 ≤ length d.gateway
      → answers.default_gateway ≡ true
      → answers.replace_gateway ≡ true
      → ext_exist b s ≡ ok (some i)
      → by_id stack.id (table b s) ≡ none
      → decide_ext b stack answers d s ≡ ok (s, stack.ext)
  unfolding decide_ext
  decide_ext-junk stack answers d s f o g a y e n =
      rw (lt→ltb 1 (length d.gateway) g, a, e, y) (rw (unset_ext-missing b stack.id s f o n) refl)
