-- ===== src/Daemon/Ends.antt =====
-- Starting and destroying the collectors, and the watchdog's look at them, keep the order.
use xbat_ginkgo.Base.{
  ap, sym, some_inj, ℕ, zero, suc, ◌+◌, ◌≡◌, refl, ◌≢◌, subst, List, [], ◌∷◌, none, some, arith,
  All, All-set, All-get_elem?, get_elem?, take, length, ◌==◌,
}
use xbat_ginkgo.Base.Outcome.{Ensures, Ensures-if, Ensures-elim, Ensures-or_fault}
use xbat_ginkgo.Collector.{Collector, start_measurement, destroy}
use xbat_ginkgo.Daemon.Threads.{IsCalm, watchdog_entry-Keeps, start_measurement-Keeps}
use xbat_ginkgo.Daemon.{
  starting, deleting, looking, asleep, ended, State, start_next, delete_next, look,
}
use xbat_ginkgo.Watchdog.{watchdog_entry}
use xbat_ginkgo.Daemon.Phases.{IsOrderly, IsJoinable, look-AtPhase, watch-AtPhase}

pub start_next-IsOrderly :
    (d : State) → d.phase ≡ starting → IsOrderly d → Ensures IsOrderly (start_next d)
unfolding start_next
start_next-IsOrderly d p h =
    Ensures-elim IsOrderly (get_elem? d.classes d.started) _ _
      (λ e. record { canceled = h.canceled; calm = h.calm; at = tt })
      λ c e. Ensures-or_fault IsOrderly (start_measurement c) _ λ c' e'. record {
        canceled = h.canceled;
        calm =
            All-set IsCalm d.classes d.started c'
              ((start_measurement-Keeps c e').1 (All-get_elem? IsCalm d.classes d.started e h.calm))
              h.calm;
        at = rw p tt;
      }

take_more :
    (cs : List Collector) (k : ℕ) (c : Collector)
    → get_elem? cs k ≡ some c
    → IsJoinable c
    → All IsJoinable (take k cs)
    → All IsJoinable (take (suc k) cs)
take_more [] k c e j h = cc
take_more (x ∷ xs) zero c e j h = (subst IsJoinable (sym (some_inj e)) j, tt)
take_more (x ∷ xs) (suc k) c e j h = (h.0, take_more xs k c e j h.1)

take_next :
    (cs : List Collector) (k : ℕ) (c : Collector)
    → get_elem? cs k ≡ some c
    → IsJoinable c
    → All IsJoinable (take k cs)
    → All IsJoinable (take (k + 1) cs)
take_next cs k c e j h = let one : k + 1 ≡ suc k = omega arith in rw one (take_more cs k c e j h)

take_all : (cs : List Collector) (k : ℕ) → get_elem? cs k ≡ none → take k cs ≡ cs
take_all [] zero e = refl
take_all [] (suc k) e = refl
take_all (x ∷ xs) zero e = cc
take_all (x ∷ xs) (suc k) e = ap (◌∷◌ x) (take_all xs k e)

destroy-IsJoinable : (c : Collector) {u : Unit {0}} → IsCalm c → destroy c ≡ some u → IsJoinable c
unfolding destroy
destroy-IsJoinable c f e = ground arith

pub delete_next-IsOrderly :
    (k : ℕ) (d : State) → d.phase ≡ deleting k → IsOrderly d → Ensures IsOrderly (delete_next k d)
unfolding delete_next
delete_next-IsOrderly k d p h =
    let at = rw p at h.at in
    Ensures-elim IsOrderly (get_elem? d.classes k) _ _
      (λ e. record {
        canceled = h.canceled;
        calm = h.calm;
        at = (at.0, at.1, at.2, at.3, subst (All IsJoinable) (take_all d.classes k e) at.4);
      })
      λ c e.
        Ensures-if IsOrderly c.clean_up_locked _ _ (λ locked. tt)
          λ free. Ensures-or_fault IsOrderly (destroy c) _ λ u e'. record {
            canceled = h.canceled;
            calm = h.calm;
            at = (
              at.0,
              at.1,
              at.2,
              at.3,
              take_next d.classes k c e
                  (destroy-IsJoinable c (All-get_elem? IsCalm d.classes k e h.calm) e') at.4,
            );
          }

pub look-IsOrderly :
    (now end i : ℕ) (d : State)
    → d.watch ≡ looking now end i
    → IsOrderly d
    → Ensures IsOrderly (look now end i d)
unfolding look
look-IsOrderly now end i d v h =
    let busy : d.watch ≢ ended = λ e. cc in
    let rests : IsOrderly (record d { watch = asleep }) = record {
      canceled = h.canceled;
      calm = h.calm;
      at = watch-AtPhase d.phase _ _ _ _ busy h.at;
    } in
    Ensures-if IsOrderly (i == end) _ _ (λ over. rests)
      (λ more.
        Ensures-if IsOrderly (length d.classes == end) _ _
          (λ same.
            Ensures-elim IsOrderly (get_elem? d.classes i) _ _ (λ e. rests)
              λ c e. Ensures-or_fault IsOrderly (watchdog_entry now c) _ λ c' e'.
                let calm = All-get_elem? IsCalm d.classes i e h.calm in
                let keep = watchdog_entry-Keeps now c calm e' in
                record {
                  canceled = h.canceled;
                  calm = All-set IsCalm d.classes i c' (keep.1 calm) h.calm;
                  at = look-AtPhase d.phase _ _ _ _ i c c' e busy keep h.at;
                })
          (λ grown. tt))
