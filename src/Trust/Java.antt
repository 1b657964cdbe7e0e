-- ===== src/Trust/Java.antt =====
-- core/src/certs/trust/java.rs: the key store of a JDK.
use sidedns.Prelude.{Bool, true, false, not, Option, none, some, List, if◌then◌else◌}
use sidedns.Text.{Text, text}
use sidedns.Files.{join}
use sidedns.Trust.{TrustStore, which}

-- The machine as the store sees it: JAVA_HOME, PATH and the files, and the program keytool on the
-- key store. An operation returns whether the program could be run and whether it succeeded.
pub record Jdk (KeyStore : Type 0) : Type 0 where
  pub java_home : Option Text
  pub path : List Text
  pub exists : Text → Bool
  pub list : KeyStore → Option Bool
  pub importcert : Text → KeyStore → Option (Bool × KeyStore)
  pub delete : KeyStore → Option (Bool × KeyStore)

module _ {KeyStore : Type 0} (j : Jdk KeyStore) where
  unfoldable pub keytool_path : Option Text
  unfolding which
  keytool_path =
      let in_path = which j.exists j.path (text "keytool") in
      elim j.java_home [
        | none ↦ in_path
        | some home ↦
            let candidate = join (join home (text "bin")) (text "keytool") in
            if j.exists candidate then some candidate else in_path
      ]

  unfoldable pub cacerts_path : Option Text
  cacerts_path = elim j.java_home [
    | none ↦ none
    | some home ↦
        if j.exists (join home (text "lib/security/cacerts"))
        then some (join home (text "lib/security/cacerts"))
        else if j.exists (join home (text "jre/lib/security/cacerts"))
        then some (join home (text "jre/lib/security/cacerts"))
        else none
  ]

  unfoldable pub is_available : KeyStore → Bool
  unfolding keytool_path cacerts_path
  is_available k = elim keytool_path [
    | none ↦ false
    | some _ ↦ elim cacerts_path [ none ↦ false | some _ ↦ true ]
  ]

  unfoldable pub is_installed : Text → KeyStore → Bool
  unfolding is_available
  is_installed cert_path k =
      if is_available k then (elim (j.list k) [ none ↦ false | some success ↦ success ]) else false

  unfoldable pub install : Text → KeyStore → Bool × KeyStore
  unfolding is_available
  install cert_path k =
      if is_available k
      then (elim (j.importcert cert_path k) [ none ↦ (false, k) | some result ↦ result ])
      else (false, k)

  unfoldable pub uninstall : Text → KeyStore → Bool × KeyStore
  unfolding is_available is_installed
  uninstall cert_path k =
      if not (is_available k)
      then (true, k)
      else if not (is_installed cert_path k)
      then (true, k)
      else (elim (j.delete k) [ none ↦ (false, k) | some result ↦ result ])

  abbrev pub java_store : TrustStore KeyStore
  java_store = record {
    name = text "java";
    is_available = is_available;
    is_installed = is_installed;
    install = install;
    uninstall = uninstall;
  }
