-- ===== src/Spawner/Debug/Laws.antt =====
-- What debug messages can do.
use openharmony_mac_build.Common.{
  ℕ, ℤ, String, ◌≡◌, refl, Bool, true, false, Option, none, some, ◌∷◌, if◌then◌else◌, arith,
  Bool-cases, inl, inr, str_eq,
}
use openharmony_mac_build.Spawner.State.{
  Env, Server, App, Json, Message, Code, done, failed, Trace, call, kill_process, signal, request,
}
use openharmony_mac_build.Spawner.News.{news}
use openharmony_mac_build.Spawner.Debug.{
  kill_debuggable, appspawpn_devicedebug_kill, appspawn_devicedebug_deal, deal_json, parsed_json,
  parse_json, process_app_spawn_device_debug_msg, set_lock, split_lock, lock_info,
  process_app_spawn_lock_status_msg,
}

module _ (env : Env) (n : ℕ) where
  news-kill_debuggable :
      (p i : ℤ) (s : Server) (o : Option App)
      → news n (kill_debuggable env p i s o).1.trace ≡ news n s.trace
  unfolding kill_debuggable
  news-kill_debuggable p i s none = refl
  news-kill_debuggable p i s (some a) = ground arith

  news-devicedebug_kill :
      (p : ℤ) (o : Option ℤ) (s : Server)
      → news n (appspawpn_devicedebug_kill env p o s).1.trace ≡ news n s.trace
  unfolding appspawpn_devicedebug_kill
  news-devicedebug_kill p none s = refl
  news-devicedebug_kill p (some i) s = news-kill_debuggable p i s (env.spawned_process s.trace p)

  news-deal_json :
      (p : Option ℤ) (op : Option String) (g : Option (Option ℤ)) (s : Server)
      → news n (deal_json env p op g s).1.trace ≡ news n s.trace
  unfolding deal_json appspawn_devicedebug_deal
  news-deal_json none op g s = refl
  news-deal_json (some p) none g s = refl
  news-deal_json (some p) (some op) none s = refl
  news-deal_json (some p) (some op) (some i) s = ground (arith, news-devicedebug_kill p i s)

  news-parsed_json :
      (s : Server) (o : Option Json) → news n (parsed_json env s o).1.trace ≡ news n s.trace
  unfolding parsed_json
  news-parsed_json s none = refl
  news-parsed_json s (some j) = news-deal_json j.app j.op j.args s

  news-parse_json :
      (s : Server) (o : Option String) → news n (parse_json env s o).1.trace ≡ news n s.trace
  unfolding parse_json
  news-parse_json s none = refl
  news-parse_json s (some text) = news-parsed_json (call (request "cJSON_Parse") s) (env.json text)

  pub news-process_app_spawn_device_debug_msg :
      (m : Message) (s : Server)
      → news n (process_app_spawn_device_debug_msg env m s).1.trace ≡ news n s.trace
  unfolding process_app_spawn_device_debug_msg
  news-process_app_spawn_device_debug_msg m s = news-parse_json s (env.ext_info m "devicedebug")

  news-set_lock :
      (u : ℤ) (t : String) (s : Server) → news n (set_lock env u t s).trace ≡ news n s.trace
  unfolding set_lock
  news-set_lock u t s = ground arith

  news-split_lock :
      (s : Server) (o : Option (String × String))
      → news n (split_lock env s o).trace ≡ news n s.trace
  unfolding split_lock
  news-split_lock s none = refl
  news-split_lock s (some (u, t)) = news-set_lock (env.to_int u) t s

  news-lock_info :
      (s : Server) (o : Option String) → news n (lock_info env s o).trace ≡ news n s.trace
  unfolding lock_info
  news-lock_info s none = refl
  news-lock_info s (some t) = news-split_lock s (env.at_colon t)

  pub news-process_app_spawn_lock_status_msg :
      (m : Message) (s : Server)
      → news n (process_app_spawn_lock_status_msg env m s).trace ≡ news n s.trace
  unfolding process_app_spawn_lock_status_msg
  news-process_app_spawn_lock_status_msg m s = news-lock_info s (env.ext_info m "lockstatus")

-- The process whose pid a debug message names is debuggable, and all that was called is to read the
-- message, to send it the signal, and to free what was read.
pub record KillsDebuggable (env : Env) (t u : Trace) : Type 0 where
  pub pid : ℤ
  pub app : App
  pub signal_no : ℤ
  pub found : env.spawned_process (request "cJSON_Parse" ∷ t) pid ≡ some app
  pub debuggable : app.is_debuggable ≡ true
  pub calls :
      u ≡ request "cJSON_Delete" ∷ kill_process pid (signal signal_no) ∷ request "cJSON_Parse" ∷ t

module _ (env : Env) (s : Server) where
  -- The server once the message is read, and after an end of it.
  abbrev parsing : Server
  parsing = call (request "cJSON_Parse") s

  abbrev Kills : Code × Server → Type 0
  Kills r = KillsDebuggable env s.trace (request "cJSON_Delete" ∷ r.1.trace)

  kill_debuggable-Kills :
      (p i : ℤ) (o : Option App)
      → env.spawned_process parsing.trace p ≡ o
      → (kill_debuggable env p i parsing o).0 ≡ done
      → Kills (kill_debuggable env p i parsing o)
  unfolding kill_debuggable
  kill_debuggable-Kills p i none f e = absurd (ground arith)
  kill_debuggable-Kills p i (some a) f e = elim (Bool-cases a.is_debuggable) [
    | inr d ↦ absurd (ground arith)
    | inl d ↦ record {
      pid = p;
      app = a;
      signal_no = i;
      found = f;
      debuggable = d;
      calls = ground arith;
    }
  ]

  appspawpn_devicedebug_kill-Kills :
      (p : ℤ) (o : Option ℤ)
      → (appspawpn_devicedebug_kill env p o parsing).0 ≡ done
      → Kills (appspawpn_devicedebug_kill env p o parsing)
  unfolding appspawpn_devicedebug_kill
  appspawpn_devicedebug_kill-Kills p none e = absurd (ground arith)
  appspawpn_devicedebug_kill-Kills p (some i) e =
      kill_debuggable-Kills p i (env.spawned_process parsing.trace p) refl e

  appspawn_devicedebug_deal-Kills :
      (b : Bool) (p : ℤ) (o : Option ℤ)
      → (if b then appspawpn_devicedebug_kill env p o parsing else (failed, parsing)).0 ≡ done
      → Kills (if b then appspawpn_devicedebug_kill env p o parsing else (failed, parsing))
  appspawn_devicedebug_deal-Kills true p o e = appspawpn_devicedebug_kill-Kills p o e
  appspawn_devicedebug_deal-Kills false p o e = absurd (ground arith)

  deal_json-Kills :
      (p : Option ℤ) (op : Option String) (g : Option (Option ℤ))
      → (deal_json env p op g parsing).0 ≡ done
      → Kills (deal_json env p op g parsing)
  unfolding deal_json appspawn_devicedebug_deal
  deal_json-Kills none op g e = absurd (ground arith)
  deal_json-Kills (some p) none g e = absurd (ground arith)
  deal_json-Kills (some p) (some op) none e = absurd (ground arith)
  deal_json-Kills (some p) (some op) (some i) e =
      appspawn_devicedebug_deal-Kills (str_eq op "kill") p i e

  parsed_json-Kills :
      (o : Option Json)
      → (parsed_json env parsing o).0 ≡ done
      → KillsDebuggable env s.trace (parsed_json env parsing o).1.trace
  unfolding parsed_json
  parsed_json-Kills none e = absurd (ground arith)
  parsed_json-Kills (some j) e = deal_json-Kills j.app j.op j.args e

  parse_json-Kills :
      (o : Option String)
      → (parse_json env s o).0 ≡ done
      → KillsDebuggable env s.trace (parse_json env s o).1.trace
  unfolding parse_json
  parse_json-Kills none e = absurd (ground arith)
  parse_json-Kills (some text) e = parsed_json-Kills (env.json text) e

  -- A debug message that is answered with 0 has sent one signal, to a process that is debuggable, and what
  -- was parsed of it is freed.
  pub process_app_spawn_device_debug_msg-KillsDebuggable :
      (m : Message)
      → (process_app_spawn_device_debug_msg env m s).0 ≡ done
      → KillsDebuggable env s.trace (process_app_spawn_device_debug_msg env m s).1.trace
  unfolding process_app_spawn_device_debug_msg
  process_app_spawn_device_debug_msg-KillsDebuggable m e =
      parse_json-Kills (env.ext_info m "devicedebug") e
