-- ===== src/Acl/Flatten.antt =====
-- The search of `AclManager::userFlattenRoles` (libshvbroker/src/aclmanager.cpp) through the roles
-- of a role. `subs` answers `aclRole(role).roles`.
use libshv.Base.{zero, suc, ℕ, ◌||◌, if◌then◌else◌, Option, none, some, List, [], ◌∷◌, ◌++◌, Str}
use libshv.Base.Dict.{has}

-- `enqueue`, on the roles flattened so far and the queue
unfoldable pub enqueue : List Str → List Str → Str → List Str
enqueue done queue role = if has done role || has queue role then queue else queue ++ (role ∷ [])

unfoldable pub enqueue_all : List Str → List Str → List Str → List Str
enqueue_all done queue [] = queue
enqueue_all done queue (role ∷ roles) = enqueue_all done (enqueue done queue role) roles

module _ (subs : Str → List Str) where
  -- `while (!role_q.empty())`; `none` if the fuel runs out.
  unfoldable pub flatten_loop : ℕ → List Str → List Str → Option (List Str)
  flatten_loop zero done queue = none
  flatten_loop (suc fuel) done [] = some done
  flatten_loop (suc fuel) done (cur ∷ queue) =
      flatten_loop fuel (done ++ (cur ∷ [])) (enqueue_all (done ++ (cur ∷ [])) queue (subs cur))

  -- The roles flattened from the given ones.
  unfoldable pub flatten : ℕ → List Str → Option (List Str)
  flatten fuel roles = flatten_loop fuel [] (enqueue_all [] [] roles)
