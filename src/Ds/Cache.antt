-- ===== src/Ds/Cache.antt =====
-- pstoreds/cache.go: `cache`, and `noopCache`, which stands in for it when the cache is disabled.
use go_libp2p_peerstore.Prelude.{Bool, false, List, [], Option, none}

-- The methods of a cache with the state `C`. `get` may change the state, `peek` does not.
pub record Cache (C K V : Type 0) : Type 0 where
  pub get : K → C → Option V × C
  pub add : K → V → C → C
  pub remove : K → C → C
  pub contains : K → C → Bool
  pub peek : K → C → Option V
  pub cached_keys : C → List K

-- `noopCache` has no state.
unfoldable pub noop_cache : {K V : Type 0} → Cache Unit K V
noop_cache = record {
  get = λ k c. (none, c);
  add = λ k v c. c;
  remove = λ k c. c;
  contains = λ k c. false;
  peek = λ k c. none;
  cached_keys = λ c. [];
}
