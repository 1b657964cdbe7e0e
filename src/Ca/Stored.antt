-- ===== src/Ca/Stored.antt =====
-- What the disk gives back.
use sidedns.Prelude.{
  ℕ, ◌≡◌, refl, true, false, none, some, [], arith, ◌==◌, text_eq, text_eq_refl, list_beq, ap, ◌∙◌,
  Bool-cases, Option-cases, inl, inr,
}
use sidedns.Text.{Text, text}
use sidedns.HashMap
use sidedns.HashMap.Laws.{get-insert}
use sidedns.Files.{Disk, Rights, exists, write, remove_file}
use sidedns.Files.Laws.{get-remove_file, join-ne}
use sidedns.Ca.{
  Crypto, CaPem, ca_params, cert_path, cert_key_path, Ca, load, is_installed, generate, save,
  load_or_generate, uninstall,
}

paths-ne : (dir : Text) → (cert_path dir == cert_key_path dir) ≡ false
unfolding list_beq
paths-ne dir = join-ne dir (text "SideDNS-CA.crt") (text "SideDNS-CA.key") refl

swapped : (dir : Text) → (cert_key_path dir == cert_path dir) ≡ false
unfolding list_beq
swapped dir = join-ne dir (text "SideDNS-CA.key") (text "SideDNS-CA.crt") refl

not_installed :
    (c : Crypto) (dir : Text) (disk : Disk)
    → HashMap.get (cert_path dir) disk ≡ none
    → is_installed c dir disk ≡ false
unfolding is_installed load exists
not_installed c dir disk missing = rw (missing, is_installed, load, exists) refl

module _ (c : Crypto) (dir : Text) where
  -- What is on the disk is an authority's certificate and key.
  record IsStored (ca : Ca c) (disk : Disk) : Type 0 where
    cert : c.Certificate
    key : c.KeyPair
    cert_file : HashMap.get (cert_path dir) disk ≡ some (c.pem cert)
    key_file : HashMap.get (cert_key_path dir) disk ≡ some (c.serialize_pem key)
    issuer : c.issuer_from_pem (c.pem cert) key ≡ some ca

  load-IsStored : (ca : Ca c) (disk : Disk) → IsStored ca disk → load c dir disk ≡ some ca
  unfolding load exists
  load-IsStored ca disk s =
      rw (s.cert_file, s.key_file, load, exists)
        (elim (Option-cases (c.cert_of_pem (c.pem s.cert))) [
          | inl bad ↦ ground (arith, c.cert_round_trip s.cert s.key, s.issuer)
          | inr (d, good) ↦ elim (Option-cases (c.key_of_pem (c.serialize_pem s.key))) [
            | inl unread ↦ ground (arith, c.key_round_trip s.key)
            | inr (k, read) ↦
                ground (arith, c.cert_round_trip s.cert s.key, c.key_round_trip s.key, s.issuer)
          ]
        ])

  -- What `generate` returns comes from one key and the certificate that it signed.
  record IsGenerated (ca_pem : CaPem) (ca : Ca c) : Type 0 where
    cert : c.Certificate
    key : c.KeyPair
    cert_text : ca_pem.cert ≡ c.pem cert
    key_text : ca_pem.key ≡ c.serialize_pem key
    issuer : c.issuer_from_pem (c.pem cert) key ≡ some ca

  generate-IsGenerated :
      (random : ℕ) (user : Text) (ca_pem : CaPem) (ca : Ca c)
      → generate c random user ≡ some (ca_pem, ca)
      → IsGenerated ca_pem ca
  unfolding generate
  generate-IsGenerated random user ca_pem ca made = elim (Option-cases (c.generate_key random)) [
    | inl without ↦ ground arith
    | inr (key, drawn) ↦ elim (Option-cases (c.new [])) [
      | inl refused ↦ ground arith
      | inr (params, accepted) ↦ elim (Option-cases (c.self_signed (ca_params c user params) key)) [
        | inl unsigned ↦ ground arith
        | inr (cert, signed) ↦ elim (Option-cases (c.issuer_from_pem (c.pem cert) key)) [
          | inl unread ↦ ground arith
          | inr (issuer, found) ↦ record {
            cert = cert;
            key = key;
            cert_text = ground arith;
            key_text = ground arith;
            issuer = ground arith;
          }
        ]
      ]
    ]
  ]

  save_files :
      (rights : Rights) (ca_pem : CaPem) (disk : Disk)
      → (save c rights dir ca_pem disk).0 ≡ true
      → (HashMap.get (cert_path dir) (save c rights dir ca_pem disk).1 ≡ some ca_pem.cert)
        × (HashMap.get (cert_key_path dir) (save c rights dir ca_pem disk).1 ≡ some ca_pem.key)
  unfolding save write
  save_files rights ca_pem disk saved = elim (Bool-cases (rights.may_create dir)) [
    | inr refused ↦ ground arith
    | inl allowed ↦ elim (Bool-cases (rights.may_write (cert_path dir))) [
      | inr refused ↦ ground arith
      | inl first ↦ elim (Bool-cases (rights.may_write (cert_key_path dir))) [
        | inr refused ↦ ground arith
        | inl second ↦
            let disk' = HashMap.insert (cert_path dir) ca_pem.cert disk in
            rw (allowed, first, second, save, write)
              (
                get-insert (cert_key_path dir) (cert_path dir) ca_pem.key disk'
                    ∙ rw (swapped dir) (
                        get-insert (cert_path dir) (cert_path dir) ca_pem.cert disk
                        ∙ rw (text_eq_refl (cert_path dir)) refl),
                get-insert (cert_key_path dir) (cert_key_path dir) ca_pem.key disk'
                    ∙ rw (text_eq_refl (cert_key_path dir)) refl,
              )
      ]
    ]
  ]

  save-IsStored :
      (rights : Rights) (random : ℕ) (user : Text) (ca_pem : CaPem) (ca : Ca c) (disk : Disk)
      → generate c random user ≡ some (ca_pem, ca)
      → (save c rights dir ca_pem disk).0 ≡ true
      → IsStored ca (save c rights dir ca_pem disk).1
  save-IsStored rights random user ca_pem ca disk made saved =
      let g = generate-IsGenerated random user ca_pem ca made in
      let files = save_files rights ca_pem disk saved in
      record {
        cert = g.cert;
        key = g.key;
        cert_file = files.0 ∙ ap some g.cert_text;
        key_file = files.1 ∙ ap some g.key_text;
        issuer = g.issuer;
      }

  -- Once an authority was loaded or generated, the disk holds it: loading gives the same authority,
  -- and loading or generating again, with any randomness, gives it too and writes nothing.
  pub load_or_generate_again :
      (rights : Rights) (random : ℕ) (user : Text) (disk : Disk) (ca : Ca c)
      → (load_or_generate c rights random user dir disk).0 ≡ some ca
      → (load c dir (load_or_generate c rights random user dir disk).1 ≡ some ca)
        × ((random' : ℕ) (user' : Text)
            → load_or_generate c rights random' user' dir
                (load_or_generate c rights random user dir disk).1
              ≡ (some ca, (load_or_generate c rights random user dir disk).1))
  unfolding load_or_generate
  load_or_generate_again rights random user disk ca given =
      let kept = held in (kept, λ random' user'. rw (kept, load_or_generate) refl)
    where
      held : load c dir (load_or_generate c rights random user dir disk).1 ≡ some ca
      held = elim (Option-cases (load c dir disk)) [
        | inr (old, loaded) ↦ ground arith
        | inl missing ↦ elim (Option-cases (generate c random user)) [
          | inl failed ↦ ground arith
          | inr ((ca_pem, new), made) ↦ elim (Bool-cases (save c rights dir ca_pem disk).0) [
            | inr unsaved ↦ ground arith
            | inl saved ↦ ground (
              arith,
              load-IsStored new _ (save-IsStored rights random user ca_pem new disk made saved),
            )
          ]
        ]
      ]

  -- If uninstalling succeeds, no authority is installed; and whether it does or not, every other
  -- file is as it was.
  uninstall_lem :
      (rights : Rights) (disk : Disk)
      → ((uninstall c rights dir disk).0 ≡ true
          → is_installed c dir (uninstall c rights dir disk).1 ≡ false)
        × ((path : Text)
            → (cert_path dir == path) ≡ false
            → (cert_key_path dir == path) ≡ false
            → HashMap.get path (uninstall c rights dir disk).1 ≡ HashMap.get path disk)
  unfolding uninstall
  uninstall_lem rights disk = (gone, others)
    where
      half : Disk
      half = (remove_file rights (cert_path dir) disk).1

      others :
          (path : Text)
          → (cert_path dir == path) ≡ false
          → (cert_key_path dir == path) ≡ false
          → HashMap.get path (uninstall c rights dir disk).1 ≡ HashMap.get path disk
      others path not_cert not_key = ground (
        arith,
        get-remove_file rights disk (cert_path dir) path,
        get-remove_file rights half (cert_key_path dir) path,
      )

      gone :
          (uninstall c rights dir disk).0 ≡ true
          → is_installed c dir (uninstall c rights dir disk).1 ≡ false
      gone removed = not_installed c dir _ (
          ground (
            arith,
            text_eq_refl (cert_path dir),
            get-remove_file rights disk (cert_path dir) (cert_path dir),
            get-remove_file rights half (cert_key_path dir) (cert_path dir),
          ))
