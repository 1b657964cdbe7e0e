-- ===== src/SystemDns/Systemd.antt =====
-- core/src/dns/sys/systemd.rs: the drop-in file of systemd-resolved.
use sidedns.Prelude.{
  ℕ, ◌+◌, ◌≡◌, refl, ◌∙◌, Bool, false, Option, none, some, List, [], ◌∷◌, ◌++◌, map, arith, ◌==◌,
  nat_eq, if◌then◌else◌, All, Option-cases, inl, inr,
}
use sidedns.Text.{Text, text, strip_prefix}
use sidedns.Rule.{star_dot}
use sidedns.SystemDns.{SystemDnsManager}

-- What can be seen of the system: the drop-in file, and how often the resolver was reloaded.
pub record System : Type 0 where
  pub drop_in : Option Text
  pub reloads : ℕ

-- Whether creating the directory, writing and removing the file, and reloading succeed.
pub record Rights : Type 0 where
  pub create_dir_all : Bool
  pub write : Bool
  pub remove_file : Bool
  pub reload : Bool

-- A wildcard routes what is below its suffix, another domain itself.
unfoldable pub routed : Text → Text
unfolding strip_prefix
routed d = elim (strip_prefix star_dot d) [
  | some suffix ↦ b'~' ∷ suffix
  | none ↦ b'~' ∷ d ++ text "."
]

-- `join(" ")`
unfoldable pub join_spaces : List Text → Text
join_spaces [] = []
join_spaces (t ∷ []) = t
join_spaces (t ∷ u ∷ ts) = t ++ b' ' ∷ join_spaces (u ∷ ts)

unfoldable pub content : List Text → Text
unfolding routed join_spaces
content domains =
    text "# Managed by SideDNS — do not edit manually\n[Resolve]\nDNS=127.0.53.53\nDomains="
    ++ (join_spaces (map routed domains) ++ text "\n")

module _ (r : Rights) where
  unfoldable pub reload : System → Bool × System
  reload x = (r.reload, record x { reloads = x.reloads + 1 })

  unfoldable pub apply : List Text → System → Bool × System
  unfolding content reload
  apply domains x =
      if r.create_dir_all
      then (if r.write then reload (record x { drop_in = some (content domains) }) else (false, x))
      else (false, x)

  unfoldable pub revert : System → Bool × System
  unfolding reload
  revert x = elim x.drop_in [
    | none ↦ reload x
    | some _ ↦ if r.remove_file then reload (record x { drop_in = none }) else (false, x)
  ]

  abbrev pub systemd_configurator : SystemDnsManager System
  systemd_configurator = record { apply = apply; revert = revert }

-- The line breaks of a text.
abbrev pub breaks : Text → ℕ
breaks [] = 0
breaks (c ∷ t) = if c == b'\n' then breaks t + 1 else breaks t

breaks-append : (s t : Text) → breaks (s ++ t) ≡ breaks s + breaks t
breaks-append [] t = omega arith
breaks-append (c ∷ s) t = ground (arith, breaks-append s t)

strip_prefix-breaks : (p d t : Text) → strip_prefix p d ≡ some t → breaks d ≡ 0 → breaks t ≡ 0
unfolding strip_prefix
strip_prefix-breaks [] d t e h = ground arith
strip_prefix-breaks (c ∷ p) [] t e h = cc
strip_prefix-breaks (c ∷ p) (a ∷ d) t e h = ground (arith, strip_prefix-breaks p d t)

breaks-routed : (d : Text) → breaks d ≡ 0 → breaks (routed d) ≡ 0
unfolding routed
breaks-routed d h = elim (Option-cases (strip_prefix star_dot d)) [
  | inl exact ↦ rw (exact, routed) (breaks-append d (text ".") ∙ omega (arith, h))
  | inr (suffix, wild) ↦ rw (wild, routed) (strip_prefix-breaks star_dot d suffix wild h)
]

breaks-join :
    (ds : List Text) → All (λ d. breaks d ≡ 0) ds → breaks (join_spaces (map routed ds)) ≡ 0
unfolding join_spaces
breaks-join [] _ = refl
breaks-join (d ∷ []) (h, _) = breaks-routed d h
breaks-join (d ∷ e ∷ ds) (h, later) = omega (
  arith,
  breaks-append (routed d) (b' ' ∷ join_spaces (map routed (e ∷ ds))),
  breaks-routed d h,
  breaks-join (e ∷ ds) later,
)

-- The drop-in file has its four lines and no other: domains without line breaks cannot add one.
breaks-content : (ds : List Text) → All (λ d. breaks d ≡ 0) ds → breaks (content ds) ≡ 4
unfolding content
breaks-content ds h =
    omega (arith, breaks-append (join_spaces (map routed ds)) (text "\n"), breaks-join ds h)
