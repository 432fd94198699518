-- ===== src/Credentials/Roots.antt =====
-- Which root certificates credentials trust.
use grpc_php_rs.Common.{◌≡◌, refl, true, false, String, Option, none, some}
use grpc_php_rs.Credentials.{
  Statics, create_ssl, create_default, set_default_roots_pem, is_default_roots_pem_set,
  invalidate_default_roots_pem,
}

-- Setting default roots makes credentials without roots of their own the ones that name those roots,
-- for `createSsl` and `createDefault` alike; roots that are given win over the default; invalidating
-- goes back to the bundled roots alone; and `isDefaultRootsPemSet` tells the two states apart.
default_roots_exact :
    (s : Statics) (pem own : String) (key chain : Option String)
    → let set = set_default_roots_pem pem s in
      let unset = invalidate_default_roots_pem set in
      (create_ssl none key chain set ≡ create_ssl (some pem) key chain set)
      × (create_default set ≡ create_ssl (some pem) none none set)
      × ((create_ssl (some own) key chain set).0 ≡ (create_ssl (some own) key chain s).0)
      × (create_default unset ≡ create_ssl none none none unset)
      × ((create_ssl (some pem) key chain unset).0 ≡ (create_ssl none key chain set).0)
      × (is_default_roots_pem_set set ≡ true)
      × (is_default_roots_pem_set unset ≡ false)
unfolding create_ssl create_default set_default_roots_pem invalidate_default_roots_pem
    is_default_roots_pem_set
default_roots_exact s pem own key chain = (refl, refl, refl, refl, refl, refl, refl)
