-- ===== src/Storage/Process.antt =====
-- storage/native/storage/storage.c, the thread of the storage: it launches Tarantool, runs a script,
-- and then the fiber until the loop of Tarantool is left. What is called gives a parameter.
use feng_shui.Prelude.{ℕ, Bool, true, false, not, [], ◌∷◌, ◌==◌, if◌then◌else◌}
use feng_shui.Storage.Lifecycle.{Instance, FiberCalls, storage_fiber, first_failure}

-- The number for the text "STORAGE_LUA_ERROR": no error of the C library has it.
abbrev pub storage_lua_error : ℕ
storage_lua_error = 1000000

-- The results, in the order of the calls. `registered` is that of `box_on_shutdown`, whose error is
-- in `errno`.
pub record ProcessCalls : Type 0 where
  pub script : ℕ
  pub registered : ℕ
  pub errno : ℕ
  pub fiber : FiberCalls
  pub lock : ℕ
  pub broadcast : ℕ
  pub unlock : ℕ

-- Behind the loop of Tarantool: the instance, and whether the launcher was told to shut down.
unfoldable pub leave_loop : ProcessCalls → Instance → Bool × Instance
leave_loop calls i =
    let failed = first_failure (calls.broadcast ∷ calls.unlock ∷ []) in
    if not i.initialized
    then (false, i)
    else if not (calls.lock == 0)
    then (false, record i { shutdown_error = calls.lock })
    else if not (failed == 0)
    then (true, record i { initialized = false; shutdown_error = failed })
    else (true, record i { initialized = false })

-- Whether the fiber goes on to serve, and the instance when it does, or else when it has ended.
unfoldable pub launched : ProcessCalls → Instance → Bool × Instance
launched calls i =
    if not (calls.script == 0)
    then (false, record i { initialization_error = storage_lua_error })
    else if not (calls.registered == 0)
    then (false, record i { initialization_error = calls.errno })
    else storage_fiber calls.fiber i

-- The thread, to its end: a failure of the script, or of what follows it, is its return.
unfoldable pub storage_process_initialization : ProcessCalls → Instance → Bool × Instance
storage_process_initialization calls i =
    let failed = not (calls.script == 0) in
    let refused = not (calls.registered == 0) in
    let (serves, j) = launched calls i in
    if failed then (false, j) else if refused then (false, j) else leave_loop calls j
