-- ===== src/Platform/Seatbelt/Essential.antt =====
-- sandbox/platform/seatbelt_translator_darwin.go: the rules that every profile starts with.
use pmg.Prelude.{true, false, Text, codes, map, List, [], ◌∷◌, ◌++◌}
use pmg.Platform.Seatbelt.{char_device, of_kind, literal_path, subpath, ProfileRule, allow_rule}

abbrev pub mach_services : List Text
mach_services =
    codes "com.apple.audio.systemsoundserver"
    ∷ codes "com.apple.distributed_notifications@Uv3"
    ∷ codes "com.apple.FSEvents"
    ∷ codes "com.apple.FontObjectsServer"
    ∷ codes "com.apple.fonts"
    ∷ codes "com.apple.logd"
    ∷ codes "com.apple.lsd.mapdb"
    ∷ codes "com.apple.PowerManagement.control"
    ∷ codes "com.apple.system.logger"
    ∷ codes "com.apple.system.notification_center"
    ∷ codes "com.apple.trustd.agent"
    ∷ codes "com.apple.system.opendirectoryd.libinfo"
    ∷ codes "com.apple.system.opendirectoryd.membership"
    ∷ codes "com.apple.bsd.dirhelper"
    ∷ codes "com.apple.securityd.xpc"
    ∷ codes "com.apple.coreservices.launchservicesd"
    ∷ []

abbrev pub sysctls : List Text
sysctls =
    codes "hw.activecpu"
    ∷ codes "hw.busfrequency_compat"
    ∷ codes "hw.byteorder"
    ∷ codes "hw.cacheconfig"
    ∷ codes "hw.cachelinesize_compat"
    ∷ codes "hw.cpufamily"
    ∷ codes "hw.cpufrequency"
    ∷ codes "hw.cpufrequency_compat"
    ∷ codes "hw.cputype"
    ∷ codes "hw.l1dcachesize_compat"
    ∷ codes "hw.l1icachesize_compat"
    ∷ codes "hw.l2cachesize_compat"
    ∷ codes "hw.l3cachesize_compat"
    ∷ codes "hw.logicalcpu"
    ∷ codes "hw.logicalcpu_max"
    ∷ codes "hw.machine"
    ∷ codes "hw.memsize"
    ∷ codes "hw.ncpu"
    ∷ codes "hw.nperflevels"
    ∷ codes "hw.packages"
    ∷ codes "hw.pagesize_compat"
    ∷ codes "hw.pagesize"
    ∷ codes "hw.physicalcpu"
    ∷ codes "hw.physicalcpu_max"
    ∷ codes "hw.tbfrequency_compat"
    ∷ codes "hw.vectorunit"
    ∷ codes "kern.argmax"
    ∷ codes "kern.bootargs"
    ∷ codes "kern.hostname"
    ∷ codes "kern.maxfiles"
    ∷ codes "kern.maxfilesperproc"
    ∷ codes "kern.maxproc"
    ∷ codes "kern.ngroups"
    ∷ codes "kern.osproductversion"
    ∷ codes "kern.osrelease"
    ∷ codes "kern.ostype"
    ∷ codes "kern.osvariant_status"
    ∷ codes "kern.osversion"
    ∷ codes "kern.secure_kernel"
    ∷ codes "kern.tcsm_available"
    ∷ codes "kern.tcsm_enable"
    ∷ codes "kern.usrstack64"
    ∷ codes "kern.version"
    ∷ codes "kern.willshutdown"
    ∷ codes "machdep.cpu.brand_string"
    ∷ codes "machdep.ptrauth_enabled"
    ∷ codes "security.mac.lockdown_mode_state"
    ∷ codes "sysctl.proc_cputype"
    ∷ codes "vm.loadavg"
    ∷ []

abbrev pub sysctl_prefixes : List Text
sysctl_prefixes =
    codes "hw.optional.arm"
    ∷ codes "hw.optional.arm."
    ∷ codes "hw.optional.armv8_"
    ∷ codes "hw.perflevel"
    ∷ codes "kern.proc.all"
    ∷ codes "kern.proc.pgrp."
    ∷ codes "kern.proc.pid."
    ∷ codes "machdep.cpu."
    ∷ codes "net.routetable."
    ∷ []

abbrev pub devices : List Text
devices =
    codes "/dev/null"
    ∷ codes "/dev/zero"
    ∷ codes "/dev/random"
    ∷ codes "/dev/urandom"
    ∷ codes "/dev/dtracehelper"
    ∷ codes "/dev/tty"
    ∷ []

-- The rules that every profile starts with.
abbrev pub essential : List ProfileRule
essential =
    record { allows = false; operations = codes "default" ∷ []; filters = [] }
    ∷ allow_rule (codes "process-exec") []
    ∷ allow_rule (codes "process-fork") []
    ∷ allow_rule (codes "process-info*") (of_kind (codes "target") (codes "same-sandbox") ∷ [])
    ∷ allow_rule (codes "signal") (of_kind (codes "target") (codes "same-sandbox") ∷ [])
    ∷ allow_rule (codes "mach-priv-task-port")
        (of_kind (codes "target") (codes "same-sandbox") ∷ [])
    ∷ allow_rule (codes "user-preference-read") []
    ∷ allow_rule (codes "mach-lookup") (map (of_kind (codes "global-name")) mach_services)
    ∷ allow_rule (codes "ipc-posix-shm") []
    ∷ allow_rule (codes "ipc-posix-sem") []
    ∷ allow_rule (codes "iokit-open") (
        of_kind (codes "iokit-registry-entry-class") (codes "IOSurfaceRootUserClient")
        ∷ of_kind (codes "iokit-registry-entry-class") (codes "RootDomainUserClient")
        ∷ of_kind (codes "iokit-user-client-class") (codes "IOSurfaceSendRight")
        ∷ [])
    ∷ allow_rule (codes "iokit-get-properties") []
    ∷ allow_rule (codes "system-socket")
        (of_kind (codes "require-all") (codes "(socket-domain AF_SYSTEM) (socket-protocol 2)") ∷ [])
    ∷ allow_rule (codes "sysctl-read") (
        map (of_kind (codes "sysctl-name")) sysctls
        ++ map (of_kind (codes "sysctl-name-prefix")) sysctl_prefixes)
    ∷ allow_rule (codes "sysctl-write")
        (of_kind (codes "sysctl-name") (codes "kern.tcsm_enable") ∷ [])
    ∷ allow_rule (codes "distributed-notification-post") []
    ∷ allow_rule (codes "mach-lookup")
        (of_kind (codes "global-name") (codes "com.apple.SecurityServer") ∷ [])
    ∷ (map (λ d. allow_rule (codes "file-ioctl") (literal_path d ∷ [])) devices
        ++ record {
          allows = true;
          operations = codes "file-ioctl" ∷ codes "file-read-data" ∷ codes "file-write-data" ∷ [];
          filters = char_device (codes "/dev/null") ∷ [];
        }
          ∷ allow_rule (codes "file-read-metadata") []
          ∷ allow_rule (codes "file-read*") (subpath (codes "/dev") ∷ [])
          ∷ allow_rule (codes "file-read*") (subpath (codes "/etc") ∷ [])
          ∷ [])
