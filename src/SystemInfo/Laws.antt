-- ===== src/SystemInfo/Laws.antt =====
-- Reading what has been assigned to a document.
use xbat_ginkgo.Base.{◌≡◌, refl, ◌≢◌, arith, Bytes}
use xbat_ginkgo.Base.Maps.{bytes_eq_iff}
use xbat_ginkgo.SystemInfo.{Document}

module _ {J : Type 0} (doc : Document J) where
  open doc use {get, put, get-put}

  pub get-put_self : (k : Bytes) (v j : J) → get k (put k v j) ≡ v
  get-put_self k v j = rw (get-put k k v j, (bytes_eq_iff k k).1 refl) refl

  pub get-put_other : (k i : Bytes) (v j : J) → k ≢ i → get i (put k v j) ≡ get i j
  get-put_other k i v j ne = ground (arith, get-put k i v j, bytes_eq_iff k i)
