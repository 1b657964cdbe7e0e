-- ===== src/Ca/Tests.antt =====
-- An authority over toy keys: a key is the number that it was drawn from, and a PEM text holds it.
use sidedns.Prelude.{
  ℕ, ◌≡◌, refl, true, none, some, List, [], ◌∷◌, list_beq, ◌==◌, text_eq, if◌then◌else◌,
}
use sidedns.Text.{Text, text}
use sidedns.HashMap
use sidedns.Files.{Disk, Rights, exists, write, remove_file}
use sidedns.Ca.{
  Crypto, cert_path, cert_key_path, load, is_installed, generate, save, load_or_generate, uninstall,
  sign, get_user_and_hostname,
}
use sidedns.Ca.Stored.{load_or_generate_again}

abbrev toy : Crypto
toy = record {
  KeyPair = ℕ;
  Params = List Text;
  Certificate = ℕ;
  Der = ℕ;
  KeyDer = ℕ;
  Issuer = ℕ;
  SigningKey = ℕ;
  generate_key = λ random. some random;
  new = λ names. some names;
  push = λ kind name params. params;
  constrain = λ params. params;
  set_key_usages = λ usages params. params;
  set_extended_key_usages = λ usages params. params;
  self_signed = λ params key. some key;
  signed_by = λ params key issuer. some issuer;
  pem = λ cert. cert ∷ [];
  der = λ cert. cert;
  serialize_pem = λ key. key ∷ [];
  serialize_der = λ key. some key;
  signing_key = λ key. some key;
  issuer_from_pem = λ t key. some key;
  cert_of_pem = λ t. elim t [ [] ↦ none | n ∷ _ ↦ some n ];
  key_of_pem = λ t. elim t [ [] ↦ none | n ∷ _ ↦ some n ];
  key_from_der = λ key. some key;
  issuer_from_der = λ cert key. some key;
  cert_round_trip = λ cert key. refl;
  key_round_trip = λ key. refl;
}

abbrev root : Rights
root = record { may_create = λ _. true; may_write = λ _. true; may_remove = λ _. true }

abbrev dir : Text
dir = text "/d"

abbrev installed : Disk
installed = (cert_path dir, 7 ∷ []) ∷ (cert_key_path dir, 7 ∷ []) ∷ []

code : Unit {0}
unfolding load_or_generate load generate save write exists HashMap.get HashMap.insert list_beq
    is_installed uninstall remove_file HashMap.without
code = tt

generated : load_or_generate toy root 7 (text "me@host") dir [] ≡ (some 7, installed)
unfolding code
generated = refl

load_or_generate_again_example :
    (load toy dir installed ≡ some 7)
    × ((random : ℕ) (user : Text)
        → load_or_generate toy root random user dir installed ≡ (some 7, installed))
unfolding code
load_or_generate_again_example = load_or_generate_again toy dir root 7 (text "me@host") [] 7 refl

uninstalled : uninstall toy root dir installed ≡ (true, [])
unfolding code
uninstalled = refl

signs_for_no_one : sign toy 1 7 [] ≡ none
unfolding sign
signs_for_no_one = refl

from_windows :
    get_user_and_hostname (λ name. if name == text "USERNAME" then some (text "me") else none)
    ≡ text "me@"
unfolding get_user_and_hostname list_beq
from_windows = refl
