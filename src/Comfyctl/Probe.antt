-- ===== src/Comfyctl/Probe.antt =====
-- `command_host_probe` and `command_model_root_check` of comfyctl/cli.py.
pub mod CudaVersion
use Prim.Native.Char.{code}
use Prim.Native.String
use Prim.Native.String.{◌++◌ as ◌<>◌}
use comfy_shell_v.Prelude.{
  ℕ, zero, suc, String, Bool, true, false, not, ◌&&◌, Option, none, some, List, [], ◌∷◌, ◌==◌, map,
  leb, eqb, get_or, if◌then◌else◌,
}
use comfy_shell_v.Prelude.Json.{
  Json, Items, Fields, null, str, bool, array, object, nil, cons, field, end,
}
use comfy_shell_v.Prelude.Lines.{strip, split_lines, split_at}
use comfy_shell_v.Prelude.Text.{is_space}
use comfy_shell_v.Comfyctl.Catalog.{Catalog}
use comfy_shell_v.Comfyctl.Catalog.Recommend as Recommend
use comfy_shell_v.Comfyctl.Catalog.Recommend.{Gpu, Recommendation, recommendation, vendor}
use comfy_shell_v.Comfyctl.Paths.{AbsolutePath, ComfyPaths}
use comfy_shell_v.Comfyctl.Machine.{
  Completed, Action, pure, raise_crash, raise_value_error, ask, gets, path_exists, is_dir, success,
  ◌>>=◌,
}
use comfy_shell_v.Comfyctl.Tools.{path_text, run_command, succeeded, stderr_tail, ensure_data_dirs}
use text.Mathlib.Text.{starts_with}
use comfy_shell_v.Comfyctl.Probe.CudaVersion.{parse_nvidia_smi_cuda_version}

-- What `inspect_nvidia_smi` returns
pub record GpuInfo : Type 0 where
  pub nvidia_smi : Option String
  pub cuda_version : Option String
  pub driver_version : Option String
  pub gpus : List Gpu
  pub error : Option String

abbrev no_gpu_info : GpuInfo
no_gpu_info = record {
  nvidia_smi = none;
  cuda_version = none;
  driver_version = none;
  gpus = [];
  error = none;
}

-- A line with four cells at least
abbrev gpu_of : List String → Option Gpu
gpu_of (index ∷ name ∷ memory_total_mb ∷ driver_version ∷ _) = some (record {
  index = index;
  name = name;
  memory_total_mb = memory_total_mb;
  driver_version = driver_version;
})
gpu_of _ = none

abbrev cons_gpu : Option Gpu → List Gpu → List Gpu
cons_gpu none gpus = gpus
cons_gpu (some gpu) gpus = gpu ∷ gpus

unfoldable pub gpus_in : List String → List Gpu
unfolding split_at strip
gpus_in [] = []
gpus_in (line ∷ lines) = cons_gpu (gpu_of (map strip (split_at 44 line))) (gpus_in lines)

abbrev all_same : String → List String → Bool
all_same v [] = true
all_same v (w ∷ ws) = v == w && all_same v ws

-- The only element of the set, if it has one element
unfoldable pub only : List String → Option String
only [] = none
only (v ∷ vs) = if all_same v vs then some v else none

abbrev pub parsed_version : Completed → Option String
parsed_version summary =
    if succeeded summary then parse_nvidia_smi_cuda_version summary.stdout else none

-- The last of the tests that set the error
abbrev pub smi_error : Completed → Completed → Option String → Option String
smi_error query summary (some version) =
    if not (succeeded summary)
    then some (stderr_tail summary.stderr)
    else (if succeeded query then none else some (stderr_tail query.stderr))
smi_error query summary none =
    if not (succeeded summary)
    then some (stderr_tail summary.stderr)
    else some "nvidia-smi output did not include a parseable CUDA Version"

abbrev pub gpus_of : Completed → List Gpu
gpus_of query = if succeeded query then gpus_in (split_lines query.stdout) else []

unfoldable pub inspect_nvidia_smi : Option String → Action GpuInfo
unfolding run_command stderr_tail gpus_in only parse_nvidia_smi_cuda_version split_lines
inspect_nvidia_smi none = pure no_gpu_info
inspect_nvidia_smi (some tool) = do
  query ←
      run_command
        (tool ∷ "--query-gpu=index,name,memory.total,driver_version"
          ∷ "--format=csv,noheader,nounits" ∷ [])
        none
  summary ← run_command (tool ∷ []) none
  pure (record {
    nvidia_smi = some tool;
    cuda_version = parsed_version summary;
    driver_version = only (map (λ g. g.driver_version) (gpus_of query));
    gpus = gpus_of query;
    error = smi_error query summary (parsed_version summary);
  })

abbrev or_null : Option String → Json
or_null none = null
or_null (some s) = str s

abbrev texts : List String → Items
texts [] = nil
texts (s ∷ ss) = cons (str s) (texts ss)

abbrev gpu_items : List Gpu → Items
gpu_items [] = nil
gpu_items (g ∷ gs) =
    cons
      (object (
        field "index" (str g.index) (
          field "name" (str g.name) (
            field "memory_total_mb" (str g.memory_total_mb)
              (field "driver_version" (str g.driver_version) end)))))
      (gpu_items gs)

abbrev recommendation_json : Recommendation → Json
recommendation_json r = object (
    field "rule_id" (str r.rule_id) (
      field "version_id" (str r.version_id) (
        field "version_label" (str r.version_label) (
          field "version_channel" (str r.version_channel) (
            field "version_source_type" (str r.version_source_type) (
              field "runtime_profile_id" (str r.runtime_profile_id) (
                field "runtime_profile_label" (str r.runtime_profile_label) (
                  field "comfy_ref" (str r.comfy_ref) (
                    field "python_version" (str r.python_version) (
                      field "torch_profile" (str r.torch_profile) (
                        field "gpu_ids" (array (texts r.gpu_ids)) (
                          field "reason" (str r.reason)
                            (field "warnings" (array (texts r.warnings)) end)))))))))))))

-- KeyError is not caught, and ValueError is `main`'s.
abbrev pub recommended_or_raise : GpuInfo → Recommend.Outcome → Action Recommendation
recommended_or_raise info (Recommend.recommended r) = pure r
recommended_or_raise info Recommend.key_error = raise_crash
recommended_or_raise info Recommend.value_error = raise_value_error (
    "no recommendation rule matched gpu_vendor="
    <> vendor info.gpus
    <> " cuda_version="
    <> get_or info.cuda_version "None")

-- `runtime_recommendation`
unfoldable pub runtime_recommendation : Catalog → GpuInfo → Action Recommendation
unfolding recommendation
runtime_recommendation catalog info =
    recommended_or_raise info (recommendation catalog info.cuda_version info.gpus)

abbrev pub probe_fields :
    ComfyPaths → Option String → Option String → String → GpuInfo → Recommendation → Fields
probe_fields paths git uv executable info advice =
    field "data_root" (str (path_text paths.data_root)) (
      field "installs_dir" (str (path_text paths.installs_dir)) (
        field "shared_dir" (str (path_text paths.shared_dir)) (
          field "default_models_root" (str (path_text paths.default_models_root)) (
            field "default_input_root" (str (path_text paths.default_input_root)) (
              field "default_output_root" (str (path_text paths.default_output_root)) (
                field "download_cache_dir" (str (path_text paths.download_cache_dir)) (
                  field "git" (or_null git) (
                    field "uv" (or_null uv) (
                      field "python" (str executable) (
                        field "nvidia_smi" (or_null info.nvidia_smi) (
                          field "nvidia_smi_error" (or_null info.error) (
                            field "driver_version" (or_null info.driver_version) (
                              field "cuda_version" (or_null info.cuda_version) (
                                field "gpus" (array (gpu_items info.gpus)) (
                                  field "runtime_recommendation" (recommendation_json advice)
                                    end)))))))))))))))

abbrev pub probe_payload :
    ComfyPaths → Option String → Option String → String → GpuInfo → Recommendation → Fields
probe_payload paths git uv executable info advice =
    field "layer" (str "host")
      (field "data" (object (probe_fields paths git uv executable info advice)) end)

unfoldable pub command_host_probe : Catalog → String → Action ℕ
unfolding ensure_data_dirs inspect_nvidia_smi runtime_recommendation path_text
command_host_probe catalog data_root = do
  paths ← ensure_data_dirs data_root
  nvidia_smi ← ask (λ env t. env.which t "nvidia-smi")
  info ← inspect_nvidia_smi nvidia_smi
  advice ← runtime_recommendation catalog info
  git ← ask (λ env t. env.which t "git")
  uv ← ask (λ env t. env.which t "uv")
  executable ← ask (λ env t. env.executable)
  success (probe_payload paths git uv executable info advice)

abbrev pub root_payload : AbsolutePath → Bool → Bool → Bool → Fields
root_payload target is_there is_directory can_read = field "path" (str (path_text target)) (
    field "exists" (bool is_there)
      (field "is_dir" (bool is_directory) (field "readable" (bool can_read) end)))

unfoldable pub command_model_root_check : String → Action ℕ
unfolding path_text
command_model_root_check path = do
  target ← ask (λ env t. env.absolute path)
  is_there ← path_exists target
  is_directory ← gets (λ m. is_dir m.files target)
  can_read ← (if is_there then ask (λ env t. env.readable t target) else pure false)
  success (root_payload target is_there is_directory can_read)
