-- ===== src/Ca.antt =====
-- core/src/certs/ca.rs: the certificate authority, in memory and on the disk.
-- The crates rcgen and rustls are parameters; their key generation draws on a number, which stands
-- for the randomness of the call.
pub mod Stored
pub mod Tests
use sidedns.Prelude.{
  ℕ, ◌≡◌, Bool, true, false, not, ◌&&◌, Option, none, some, List, [], ◌∷◌, ◌++◌, ◌>>=◌, ◌>>◌,
  ensure, if◌then◌else◌,
}
use sidedns.Text.{Text, text}
use sidedns.HashMap
use sidedns.Files.{Disk, Rights, join, exists, write, remove_file}

pub data DnType : Type 0 where
  common_name organization_name organizational_unit_name : DnType

pub data Usage : Type 0 where
  key_cert_sign crl_sign digital_signature server_auth : Usage

-- rcgen and rustls. `new` of the parameters checks the names; `constrain` makes them those of an
-- authority; what a parser returns for what it was written from is assumed at the end.
pub record Crypto : Type 1 where
  pub KeyPair : Type 0
  pub Params : Type 0
  pub Certificate : Type 0
  pub Der : Type 0
  pub KeyDer : Type 0
  pub Issuer : Type 0
  pub SigningKey : Type 0
  pub generate_key : ℕ → Option KeyPair
  pub new : List Text → Option Params
  pub push : DnType → Text → Params → Params
  pub constrain : Params → Params
  pub set_key_usages : List Usage → Params → Params
  pub set_extended_key_usages : List Usage → Params → Params
  pub self_signed : Params → KeyPair → Option Certificate
  pub signed_by : Params → KeyPair → Issuer → Option Certificate
  pub pem : Certificate → Text
  pub der : Certificate → Der
  pub serialize_pem : KeyPair → Text
  pub serialize_der : KeyPair → Option KeyDer
  pub signing_key : KeyDer → Option SigningKey
  pub issuer_from_pem : Text → KeyPair → Option Issuer
  pub cert_of_pem : Text → Option Der
  pub key_of_pem : Text → Option KeyDer
  pub key_from_der : KeyDer → Option KeyPair
  pub issuer_from_der : Der → KeyPair → Option Issuer
  pub cert_round_trip :
      (cert : Certificate) (key : KeyPair)
      → (cert_of_pem (pem cert) >>= λ d. issuer_from_der d key) ≡ issuer_from_pem (pem cert) key
  pub key_round_trip :
      (key : KeyPair) → (key_of_pem (serialize_pem key) >>= key_from_der) ≡ some key

abbrev pub cert_path : Text → Text
cert_path dir = join dir (text "SideDNS-CA.crt")

abbrev pub cert_key_path : Text → Text
cert_key_path dir = join dir (text "SideDNS-CA.key")

pub record CaPem : Type 0 where
  pub cert : Text
  pub key : Text

module _ (c : Crypto) where
  -- `Ca` is its issuer.
  abbrev pub Ca : Type 0
  Ca = c.Issuer

  pub record CertifiedKey : Type 0 where
    pub cert : List c.Der
    pub key : c.SigningKey

  -- `for_each` over the domains
  unfoldable pub push_names : List Text → c.Params → c.Params
  push_names [] params = params
  push_names (d ∷ domains) params = push_names domains (c.push common_name d params)

  unfoldable pub sign : ℕ → Ca → List Text → Option CertifiedKey
  unfolding push_names
  sign random ca domains = do
    ensure (elim domains [ [] ↦ false | _ ∷ _ ↦ true ])
    domain_key ← c.generate_key random
    params ← c.new domains
    cert ←
        c.signed_by
          (c.set_extended_key_usages (server_auth ∷ [])
            (c.set_key_usages (digital_signature ∷ []) (push_names domains params)))
          domain_key ca
    key_der ← c.serialize_der domain_key
    key ← c.signing_key key_der
    some (record { cert = c.der cert ∷ []; key = key })

  -- `read` of a file that is not there fails.
  unfoldable pub load : Text → Disk → Option Ca
  unfolding exists HashMap.get
  load dir disk =
      if exists (cert_path dir) disk && exists (cert_key_path dir) disk
      then (do
        cert ← HashMap.get (cert_path dir) disk
        ca_cert_der ← c.cert_of_pem cert
        key ← HashMap.get (cert_key_path dir) disk
        ca_key_der ← c.key_of_pem key
        ca_key ← c.key_from_der ca_key_der
        c.issuer_from_der ca_cert_der ca_key)
      else none

  unfoldable pub is_installed : Text → Disk → Bool
  unfolding load
  is_installed dir disk = elim (load dir disk) [ some _ ↦ true | none ↦ false ]

  -- The parameters of an authority's own certificate.
  abbrev pub ca_params : Text → c.Params → c.Params
  ca_params user params = c.set_key_usages (key_cert_sign ∷ crl_sign ∷ []) (
      c.constrain (
        c.push organizational_unit_name user (
          c.push organization_name (text "SideDNS")
            (c.push common_name (text "SideDNS Local CA") params))))

  -- `user` is what `get_user_and_hostname` finds in the environment.
  unfoldable pub generate : ℕ → Text → Option (CaPem × Ca)
  generate random user = do
    ca_key ← c.generate_key random
    params ← c.new []
    ca_cert ← c.self_signed (ca_params user params) ca_key
    issuer ← c.issuer_from_pem (c.pem ca_cert) ca_key
    some (record { cert = c.pem ca_cert; key = c.serialize_pem ca_key }, issuer)

  module _ (rights : Rights) where
    unfoldable pub save : Text → CaPem → Disk → Bool × Disk
    unfolding write
    save dir ca_pem disk =
        if rights.may_create dir
        then (let (written, disk') = write rights (cert_path dir) ca_pem.cert disk in
            if written then write rights (cert_key_path dir) ca_pem.key disk' else (false, disk'))
        else (false, disk)

    unfoldable pub load_or_generate : ℕ → Text → Text → Disk → Option Ca × Disk
    unfolding load generate save
    load_or_generate random user dir disk = elim (load dir disk) [
      | some ca ↦ (some ca, disk)
      | none ↦ elim (generate random user) [
        | none ↦ (none, disk)
        | some (ca_pem, ca) ↦
            let (saved, disk') = save dir ca_pem disk in (if saved then some ca else none, disk')
      ]
    ]

    unfoldable pub uninstall : Text → Disk → Bool × Disk
    unfolding remove_file
    uninstall dir disk =
        let (removed, disk') = remove_file rights (cert_path dir) disk in
        if removed then remove_file rights (cert_key_path dir) disk' else (false, disk')

-- The environment variables, by name; an unset one is `none`.
unfoldable pub get_user_and_hostname : (Text → Option Text) → Text
get_user_and_hostname var =
    let or_else : Option Text → Option Text → Option Text =
      λ a b. elim a [ some x ↦ some x | none ↦ b ] in
    let user : Text = elim (or_else (var (text "USER")) (var (text "USERNAME"))) [
      | some s ↦ s ++ text "@"
      | none ↦ []
    ] in
    let host : Text = elim (or_else (var (text "HOSTNAME")) (var (text "COMPUTERNAME"))) [
      | some s ↦ s
      | none ↦ []
    ] in
    user ++ host
