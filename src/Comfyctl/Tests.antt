-- ===== src/Comfyctl/Tests.antt =====
-- Runs of comfyctl/cli.py at concrete inputs.
use comfy_shell_v.Prelude.{Bool, false, pos, negsuc, none, some, [], ◌∷◌, ◌≡◌, refl}
use comfy_shell_v.Comfyctl.Machine.{ok, directory, terminate, success}
use comfy_shell_v.Comfyctl.Requirements.{requirements_without_torch, normalized_package_name}
use comfy_shell_v.Comfyctl.Processes.{parse_int, path_name}
use comfy_shell_v.Comfyctl.Probe.CudaVersion.{parse_nvidia_smi_cuda_version}
use comfy_shell_v.Comfyctl.Install.Prepare.{prepare}
use comfy_shell_v.Comfyctl.Install.{command_instance_install}
use comfy_shell_v.Comfyctl.Stop.{command_instance_stop}
use comfy_shell_v.Comfyctl.Main.{main, instance_install, instance_stop}
use comfy_shell_v.Comfyctl.Machine.{file, Platform, Machine, Operation, move, crash, same_path}
use comfy_shell_v.Comfyctl.Sample.{
  listed, plain, machine, catalog, one, staging, install_args, stop_args, same, running,
}

requirements_run :
    requirements_without_torch "torch>=2 # x\nnumpy\r\n-r a.txt\n Torch_Vision\ntorchaudio\n\n"
    ≡ "numpy\n-r a.txt\n Torch_Vision\n\n"
unfolding requirements_without_torch
requirements_run = refl

name_run : normalized_package_name "A-._b" ≡ "a-b"
unfolding normalized_package_name
name_run = refl

parse_int_run :
    (parse_int "-12" ≡ some (negsuc 11))
    × (parse_int "1_0" ≡ some (pos 10))
    × (parse_int "1__0" ≡ none)
unfolding parse_int
parse_int_run = (refl, refl, refl)

path_name_run : path_name "/a/main.py/." ≡ "main.py"
unfolding path_name
path_name_run = refl

cuda_run : parse_nvidia_smi_cuda_version "x CUDA Version: ERR CUDA Version:  12.4 |" ≡ some "12.4"
unfolding parse_nvidia_smi_cuda_version
cuda_run = refl

stop_run :
    let (r, m) = main same catalog (instance_stop stop_args) plain running in
    (r ≡ ok 5) × (m.signals ≡ (pos 77, terminate) ∷ [])
unfolding main command_instance_stop
stop_run = (refl, refl)

install_run :
    let (r, m) = main same catalog (instance_install install_args) plain (machine (λ p. none)) in
    (r ≡ ok 0)
    × (m.files one.lock ≡ none)
    × (m.files one.checkout ≡ some directory)
    × (m.files staging ≡ none)
unfolding main command_instance_install prepare success
install_run = (refl, refl, refl, refl)

-- A promotion whose fourth move is refused leaves no checkout in its place.
abbrev moves_to_checkout : Operation → Bool
moves_to_checkout (move source target) = same_path target one.checkout
moves_to_checkout _ = false

abbrev refusing : Platform
refusing = record plain { refuses = λ t files op. moves_to_checkout op }

abbrev replaced_files : Machine
replaced_files = machine (listed ((one.checkout, file "old") ∷ []))

promotion_run :
    let (r, m) = main same catalog (instance_install install_args) refusing replaced_files in
    (r ≡ crash) × (m.files one.checkout ≡ none) × (m.files staging ≡ none)
unfolding main command_instance_install prepare
promotion_run = (refl, refl, refl)
