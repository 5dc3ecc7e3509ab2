-- ===== src/SystemInfo/Hash.antt =====
-- What main hashes of the information on the system.
use xbat_ginkgo.Base.{some, ◌≡◌, refl, ◌≢◌, ◌∙◌, sym, ap, true, Bytes, codes, arith}
use xbat_ginkgo.Base.Maps.{bytes_eq_iff}
use xbat_ginkgo.Base.Outcome.{done, or_fault, ◌>>=◌}
use xbat_ginkgo.SystemInfo.Laws.{get-put_self, get-put_other}
use xbat_ginkgo.SystemInfo.{Document, set_in}
use xbat_ginkgo.SystemInfo.Gather.{assign, erase_in, hashable_system_info}

os-ne-cpu : codes "os" ≢ codes "cpu"
os-ne-cpu = λ e. ground (arith, (bytes_eq_iff (codes "os") (codes "cpu")).1 e)

module _ {J : Type 0} (doc : Document J) where
  open doc use {
    text, accepts, contains, get, put, erase, accepts-put, contains-put, get-put, put-put, put_comm,
    erase-put,
  }

  -- An entry that is in its section is taken out.
  erase_in-put :
      (name key : Bytes) (v s j : J)
      → accepts j ≡ true
      → get name j ≡ put key v s
      → erase_in doc name key j ≡ done (put name (erase key s) j)
  unfolding erase_in assign
  erase_in-put name key v s j a e =
      let held = contains-put key key v s in
      let self = (bytes_eq_iff key key).1 refl in
      rw (a, erase_in) (rw e (rw (held, self) (ap (λ x. done (put name x j)) (erase-put key v s))))

  set_in_lem :
      (name key : Bytes) (v j : J)
      → accepts j ≡ true
      → accepts (get name j) ≡ true
      → set_in doc name key v j ≡ some (put name (put key v (get name j)) j)
  unfolding set_in
  set_in_lem name key v j a b = rw (a, b) refl

  -- Two sections `a` and `b`: an entry that is set in the one, and one that was set in the other, are
  -- taken out again.
  set_and_erase :
      (a b k l : Bytes) (v w j : J)
      → a ≢ b
      → accepts j ≡ true
      → accepts (get a j) ≡ true
      → (do
        named ← or_fault (set_in doc a k v (put b (put l w (get b j)) j))
        bare ← erase_in doc b l named
        erase_in doc a k bare)
        ≡ done (put a (erase k (get a j)) (put b (erase l (get b j)) j))
  set_and_erase a b k l v w j ne ok ok' =
      let old = get-put_other doc b a (put l w (get b j)) j (λ e. ne (sym e)) in
      let before = put b (put l w (get b j)) j in
      let s = put k v (get a before) in
      let named = put a s before in
      let bare = put b (erase l (get b j)) named in
      let step = set_in_lem a k v before (accepts-put b _ j) (rw old ok') in
      let section = get-put_other doc a b s before ne ∙ get-put_self doc b (put l w (get b j)) j in
      let step' = erase_in-put b l w (get b j) named (accepts-put a s before) section in
      let section' =
        get-put_other doc b a (erase l (get b j)) named (λ e. ne (sym e))
        ∙ get-put_self doc a s before in
      let step'' = erase_in-put a k v (get a before) bare (accepts-put b _ named) section' in
      rw step (
        rw step' (
          rw step'' (
            cc (
              old,
              put_comm a b s (erase l (get b j)) before ne,
              put-put b (put l w (get b j)) (erase l (get b j)) j,
              put-put a s (erase k (get a j)) (put b (erase l (get b j)) j),
            ))))

  -- What main hashes is the information without the host name and the topology, so its hash is the same
  -- whatever the short host name of the node and the topology are.
  pub hashable_system_info_lem :
      (hostname : Bytes) (topology j : J)
      → accepts j ≡ true
      → accepts (get (codes "os") j) ≡ true
      → hashable_system_info doc hostname
          (put (codes "cpu") (put (codes "topology") topology (get (codes "cpu") j)) j)
        ≡ done (
            put
              (codes "os")
              (doc.erase (codes "hostname") (get (codes "os") j))
              (put (codes "cpu") (doc.erase (codes "topology") (get (codes "cpu") j)) j))
  unfolding hashable_system_info
  hashable_system_info_lem hostname topology j a b =
      set_and_erase (codes "os") (codes "cpu") (codes "hostname") (codes "topology") (text hostname)
        topology j os-ne-cpu a b
