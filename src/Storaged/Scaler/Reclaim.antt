-- ===== src/Storaged/Scaler/Reclaim.antt =====
-- pkg/controller/component/storaged_scaler.go: the check, at the end of a scale-in, that the claims
-- of the removed pod are gone.
use nebula_operator.Common.{◌≡◌, refl, true, List, [], ◌∷◌}
use nebula_operator.Common.Effect.{ok}
use nebula_operator.Nebula.World.{World, Call, Pvc, get_pvc}
use nebula_operator.Nebula.Meta.{MetaServer}
use nebula_operator.Storaged.Api.{ApiServer}
use nebula_operator.Storaged.Scaler.{pvcs_deleted}

module _ (api : ApiServer) (meta : MetaServer) where
  -- Claims that all still exist are taken for deleted: the check fails only at an error of the API
  -- server other than NotFound.
  pub pvcs_deleted_existing :
      (ps : List Pvc) (w : World)
      → ((calls : List Call) → api.pvc calls ≡ ok tt)
      → (pvcs_deleted api meta ps w).0 ≡ ok true
  unfolding pvcs_deleted
  pvcs_deleted_existing [] w h = refl
  pvcs_deleted_existing (p ∷ ps) w h =
      rw (h (get_pvc p ∷ w.calls))
        (pvcs_deleted_existing ps (record w { calls = get_pvc p ∷ w.calls }) h)
