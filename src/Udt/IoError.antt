-- ===== src/Udt/IoError.antt =====
-- `into_io_error` of src/udt/udt_sock.rs.
use Prim.Native.String.{String, ◌++◌, len}
use socket_collection.Base.{Option, none, some, ◌==◌, if◌then◌else◌}
use socket_collection.Error.{other, IoError}

-- `format!("Error: {:?}", e)`, with the `{:?}` of the error's type.
abbrev pub error_text : {E : Type 0} → (E → String) → Option E → String
error_text debug (some e) = "Error: " ++ debug e
error_text debug none = ""

abbrev pub into_io_error : {E : Type 0} → (E → String) → Option E → String → IoError
into_io_error debug e m =
    let opt_details = ";; [Optional details: " ++ (m ++ "]") in
    record { kind = other; text = error_text debug e ++ (if len m == 0 then "" else opt_details) }
